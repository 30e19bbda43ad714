-- ===== src/Release/Write/Plain.antt =====
-- The items that an archive is written with, and what the loop of the inventory makes of them.
use mathlib.Core.Path.{subst}
use ckb_vm_sail_verify.Base.{
  String, ℕ, ◌≡◌, refl, ap, sym, ◌∙◌, Bool, true, false, ◌&&◌, if◌then◌else◌, str_eq, List, [], ◌∷◌,
  ◌++◌, map, length, All, ==_iff, eq_iff, ltb, Option, none, some,
}
use ckb_vm_sail_verify.Base.Result.{ok, require, ◌>>=◌, bind-ok}
use ckb_vm_sail_verify.Base.Json.{str}
use ckb_vm_sail_verify.Release.Names.{is_slash, extend}
use ckb_vm_sail_verify.Release.Names.Safe.{IsSafe, safe_name_iff}
use ckb_vm_sail_verify.Release.Manifest.{Member, is_one_of}
use ckb_vm_sail_verify.Release.Inventory.{
  Item, Kind, is_file, is_directory, is_other, rstrip, name_of, member_of, entry_of, put, measured,
  take_items,
}
use ckb_vm_sail_verify.Release.Write.{directory_info}

-- No name stands twice, nor among those that were seen.
abbrev pub AreFresh : List String → List String → Type 0
AreFresh seen [] = Unit
AreFresh seen (name ∷ rest) = (is_one_of seen name ≡ false) × AreFresh (name ∷ seen) rest

pub data Shape (item : Item) : Kind → Type 0 where
  shape_directory : Shape item is_directory
  shape_file : item.linkname ≡ "" → length item.content ≡ item.size → Shape item is_file

abbrev pub keys_of : {A : Type 0} → List (String × A) → List String
keys_of [] = []
keys_of ((name, _) ∷ rest) = name ∷ keys_of rest

-- A directory, or a file without a link and of its size, with a safe name and a plain mode.
abbrev pub IsPlain : Item → Type 0
IsPlain item = IsSafe (name_of item) × (ltb item.mode 512 ≡ true) × Shape item item.kind

rstrip-extend : (x : String) → rstrip (extend x "") ≡ rstrip x
unfolding rstrip extend
rstrip-extend String.[] = refl
rstrip-extend (String.◌∷◌ c x) = rw (rstrip-extend x) refl

rstrip-rstrip : (x : String) → rstrip (rstrip x) ≡ rstrip x
unfolding rstrip
rstrip-rstrip String.[] = refl
rstrip-rstrip (String.◌∷◌ c x) = by (is_slash c && str_eq (rstrip x) "") refl (rstrip-rstrip x)
  where
    by :
        (b : Bool)
        → (is_slash c && str_eq (rstrip x) "") ≡ b
        → rstrip (rstrip x) ≡ rstrip x
        → rstrip (if b then String.[] else String.◌∷◌ c (rstrip x))
          ≡ (if b then String.[] else String.◌∷◌ c (rstrip x))
    by true e ih = refl
    by false e ih = rw ih (rw e refl)

pub name_of-directory : (name : String) → name_of (directory_info name) ≡ rstrip name
unfolding directory_info
name_of-directory name = rstrip-extend (rstrip name) ∙ rstrip-rstrip name

pub directory-IsPlain : (name : String) → IsSafe (rstrip name) → IsPlain (directory_info name)
directory-IsPlain name safe = (
  subst IsSafe (sym (name_of-directory name)) safe,
  unfold directory_info in refl,
  unfold directory_info in shape_directory,
)

module _ (sha : List ℕ → String) where
  abbrev pub entry_for : Kind → Item → Option Member
  entry_for is_directory item = none
  entry_for is_file item = some (member_of sha (name_of item) item)
  entry_for is_other item = none

  -- What the loop over plain items gives.
  abbrev pub listed : List Item → List Member × List String
  listed [] = ([], [])
  listed (item ∷ rest) = put sha (entry_for item.kind item) (name_of item) (listed rest)

  entry_of-plain :
      (seen : List String) (item : Item)
      → IsPlain item
      → is_one_of seen (name_of item) ≡ false
      → entry_of sha (name_of item) seen item ≡ ok (entry_for item.kind item)
  unfolding entry_of ◌>>=◌ require
  entry_of-plain seen item (safe, mode, shape) new = rw (mode, new) (by item.kind shape)
    where
      by :
          (kind : Kind)
          → Shape item kind
          → measured sha kind (name_of item) item ≡ ok (entry_for kind item)
      by is_directory shape_directory = refl
      by is_other h = elim h [ ]
      by is_file (shape_file link size) =
          rw ((eq_iff item.linkname "").1 link, (==_iff (length item.content) item.size).1 size)
            refl

  pub take_items-plain :
      (items : List Item) (seen : List String)
      → All IsPlain items
      → AreFresh seen (map name_of items)
      → take_items sha items seen ≡ ok (listed items)
  unfolding take_items
  take_items-plain [] seen plain fresh = refl
  take_items-plain (item ∷ rest) seen (plain, others) (new, fresh) =
      bind-ok _ ((safe_name_iff (str (name_of item)) (name_of item)).1 (refl, plain.0)) (
        bind-ok _ (entry_of-plain seen item plain new)
          (bind-ok _ (take_items-plain rest (name_of item ∷ seen) others fresh) refl))

  pub listed-file :
      (item : Item) (rest : List Item)
      → item.kind ≡ is_file
      → listed (item ∷ rest)
        ≡ (member_of sha (name_of item) item ∷ (listed rest).0, (listed rest).1)
  listed-file item rest kind =
      ap (λ k. put sha (entry_for k item) (name_of item) (listed rest)) kind

  put-append :
      (o : Option Member) (name : String) (a b : List Member) (c d : List String)
      → put sha o name (a ++ b, c ++ d)
        ≡ ((put sha o name (a, c)).0 ++ b, (put sha o name (a, c)).1 ++ d)
  put-append none name a b c d = refl
  put-append (some m) name a b c d = refl

  pub listed-append :
      (xs ys : List Item)
      → listed (xs ++ ys) ≡ ((listed xs).0 ++ (listed ys).0, (listed xs).1 ++ (listed ys).1)
  listed-append [] ys = refl
  listed-append (x ∷ xs) ys =
      ap (put sha (entry_for x.kind x) (name_of x)) (listed-append xs ys)
      ∙ put-append (entry_for x.kind x) (name_of x) _ _ _ _
