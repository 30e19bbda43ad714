-- ===== src/Release/Inventory.antt =====
-- `tar_inventory` of scripts/release_common.py. An archive is the sequence of items that `tarfile`
-- yields, and the digest of a file's bytes is a parameter.
pub mod Listed
use ckb_vm_sail_verify.Base.{
  String, ℕ, Bool, true, false, ◌&&◌, not, Option, none, some, List, [], ◌∷◌, str_eq, if◌then◌else◌,
  ◌==◌, ltb, length,
}
use ckb_vm_sail_verify.Base.Result.{Result, ok, err, runtime_error, require, ◌>>=◌, ◌>>◌}
use ckb_vm_sail_verify.Base.Json.{str}
use ckb_vm_sail_verify.Release.Names.{safe_name, is_slash, extend}
use ckb_vm_sail_verify.Release.Manifest.{Member, is_one_of}

pub data Kind : Type 0 where
  is_directory is_file is_other : Kind

-- A member of the archive, with the bytes that can be read of it.
pub record Item : Type 0 where
  pub path : String
  pub mode : ℕ
  pub kind : Kind
  pub linkname : String
  pub size : ℕ
  pub content : List ℕ

-- text.rstrip('/')
unfoldable pub rstrip : String → String
rstrip String.[] = String.[]
rstrip (String.◌∷◌ c s) =
    let rest = rstrip s in if is_slash c && str_eq rest "" then String.[] else String.◌∷◌ c rest

abbrev stripped : Kind → String → String
stripped is_directory path = rstrip path
stripped _ path = path

abbrev pub name_of : Item → String
name_of item = stripped item.kind item.path

module _ (sha : List ℕ → String) where
  abbrev pub member_of : String → Item → Member
  member_of name item = record {
    name = name;
    size = length item.content;
    sha256 = sha item.content;
  }

  abbrev pub measured : Kind → String → Item → Result (Option Member)
  measured is_directory name item = ok none
  measured is_file name item = do
    require (str_eq item.linkname "") "special/link archive member"
    require (length item.content == item.size) "archive member size differs"
    ok (some (member_of name item))
  measured is_other name item = err (runtime_error "special/link archive member")

  -- The tests on one item: none for a directory.
  unfoldable pub entry_of : String → List String → Item → Result (Option Member)
  entry_of name seen item = do
    require (ltb item.mode 512 && not (is_one_of seen name)) "special/duplicate archive member"
    measured item.kind name item

  abbrev pub put : Option Member → String → List Member × List String → List Member × List String
  put none name (files, directories) = (files, extend name "" ∷ directories)
  put (some m) name (files, directories) = (m ∷ files, directories)

  -- the loop, with the names seen so far
  unfoldable pub take_items : List Item → List String → Result (List Member × List String)
  take_items [] seen = ok ([], [])
  take_items (item ∷ rest) seen = do
    name ← safe_name (str (name_of item))
    entry ← entry_of name seen item
    others ← take_items rest (name ∷ seen)
    ok (put entry name others)

  abbrev pub is_listed : List Member → Bool
  is_listed [] = false
  is_listed (_ ∷ _) = true

  unfoldable pub tar_inventory : List Item → Result (List Member × List String)
  tar_inventory items = do
    found ← take_items items []
    require (is_listed found.0) "empty archive"
    ok found
