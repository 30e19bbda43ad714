-- ===== src/Baseline.antt =====
-- scripts/ckb_source_baseline.py: `tree` and `check`. The checkout, git and the digests are
-- parameters; the manifest is the record of the keys that `check` reads.
pub mod Checked
mod Tests
use ckb_vm_sail_verify.Base.{
  String, ℕ, Bool, true, false, ◌&&◌, ◌||◌, not, Option, none, some, List, [], ◌∷◌, ◌++◌, str_eq,
  if◌then◌else◌, ◌==◌, ◌<>◌,
}
use ckb_vm_sail_verify.Base.Result.{Error, Result, ok, err, runtime_error, require}
use ckb_vm_sail_verify.Base.Result
use ckb_vm_sail_verify.Base.Exec.{Exec, ◌>>=◌, ◌>>◌, pure, raise, lift, demand}

-- A row of `git ls-tree -rz HEAD`.
pub record Row : Type 0 where
  pub mode : String
  pub kind : String
  pub oid : String
  pub name : String

-- entries[name]: the blob is there unless the file was added
pub record Source : Type 0 where
  pub name : String
  pub mode : String
  pub oid : Option String

-- hashes[name]
pub record Hash : Type 0 where
  pub name : String
  pub mode : String
  pub bytes : String

pub record Manifest : Type 0 where
  pub schema_version : ℕ
  pub upstream_commit : String
  pub patch : String
  pub patch_sha256 : String
  pub extraction_inputs : List (String × String)
  pub added_files : List String
  pub source_tree_sha256 : String
  pub upstream_tree_sha256 : String

-- What the script asks of the checkout, of git, and of hashlib.
pub record Checkout : Type 1 where
  pub World : Type 0
  pub head : World → Result String
  pub ls_tree : World → Result (List Row)
  pub untracked : World → Result (List String)
  pub indexed : World → Result (List String)
  -- whether the file is executable, and its bytes
  pub file : String → World → Result (Bool × String)
  -- not path.is_symlink() and path.is_file()
  pub is_regular : String → World → Bool
  -- which errors are a FileNotFoundError
  pub is_missing : Error → Bool
  -- sha((root / name).read_bytes())
  pub file_sha : String → World → Result String
  pub status : World → Result String
  pub apply_check : String → World → Result (Unit {0})
  pub apply : String → World → Result (Unit {0}) × World
  pub reverse_check : String → World → Result (Unit {0})
  -- sha(canonical(hashes)), which sorts the names
  pub digest : List Hash → String

abbrev pub is_named : String → List Source → Bool
is_named k [] = false
is_named k (e ∷ es) = str_eq e.name k || is_named k es

abbrev pub contains : List String → String → Bool
contains [] k = false
contains (x ∷ xs) k = str_eq x k || contains xs k

unfoldable pub listed : List Row → Result (List Source)
listed [] = ok []
listed (row ∷ rows) =
    let rest = listed rows in
    if str_eq row.kind "blob" && (str_eq row.mode "100644" || str_eq row.mode "100755")
    then Result.◌>>=◌ rest
        (λ es. ok (record { name = row.name; mode = row.mode; oid = some row.oid } ∷ es))
    else err (runtime_error "unsupported source tree entry")

-- set(found) - entries.keys() <= set(added)
abbrev only_added : List String → List Source → List String → Bool
only_added [] entries added = true
only_added (x ∷ found) entries added =
    (is_named x entries || contains added x) && only_added found entries added

-- set(added) <= set(found) - entries.keys()
abbrev all_found : List String → List Source → List String → Bool
all_found found entries [] = true
all_found found entries (x ∷ added) =
    contains found x && not (is_named x entries) && all_found found entries added

-- The added files join the entries.
unfoldable pub join_added : List String → List Source → Result (List Source)
join_added [] entries = ok entries
join_added (x ∷ added) entries =
    if is_named x entries
    then err (runtime_error "added path already exists upstream")
    else join_added added (record { name = x; mode = "100644"; oid = none } ∷ entries)

module _ (co : Checkout) where
  open co use {
    World, head, ls_tree, untracked, indexed, file, is_regular, is_missing, file_sha, status,
    apply_check, apply, reverse_check, digest,
  }

  unfoldable pub see : {A : Type 0} → (World → Result A) → Exec World A
  see query w = (query w, w)

  abbrev actual_mode : Bool → String
  actual_mode true = "100755"
  actual_mode false = "100644"

  unfoldable pub hashes : List Source → World → Result (List Hash)
  hashes [] w = ok []
  hashes (e ∷ es) w =
      Result.◌>>=◌ (require (is_regular e.name w) "missing or non-regular source") λ _.
        Result.◌>>=◌ (file e.name w) λ read.
          Result.◌>>=◌ (hashes es w)
            λ rest. ok (record { name = e.name; mode = actual_mode read.0; bytes = read.1 } ∷ rest)

  -- tree(repo, added)
  unfoldable pub tree : List String → Exec World String
  tree added = do
    rows ← see ls_tree
    entries ← lift (listed rows)
    extra ← see untracked
    staged ← see indexed
    demand (only_added (extra ++ staged) entries added && all_found (extra ++ staged) entries added)
        "additional source paths"
    all ← lift (join_added added entries)
    read ← see (hashes all)
    pure (digest read)

  -- require(tree(repo, added), expected, label)
  unfoldable pub check_tree : List String → String → String → Exec World (Unit {0})
  check_tree added expected label = do found ← tree added; demand (str_eq found expected) label

  unfoldable pub check_inputs : List (String × String) → Exec World (Unit {0})
  check_inputs [] = pure tt
  check_inputs ((name, expected) ∷ rest) = do
    found ← see (file_sha name)
    demand (str_eq found expected) name
    check_inputs rest

  module _ (m : Manifest) where
    -- except (RuntimeError, FileNotFoundError): apply the patch to an exact clean upstream
    unfoldable pub apply_patch : Exec World (Unit {0})
    apply_patch = do
      changes ← see status
      demand (str_eq changes "") "clean upstream checkout"
      check_tree [] m.upstream_tree_sha256 "upstream tree"
      see (apply_check m.patch)
      apply m.patch

    abbrev is_caught : Error → Bool
    is_caught (runtime_error _) = true
    is_caught e = is_missing e

    abbrev pub handled : Result (Unit {0}) → Exec World (Unit {0})
    handled (ok _) = pure tt
    handled (err e) = if is_caught e then apply_patch else raise e

    unfoldable pub ensure : Exec World (Unit {0})
    ensure w =
        let (r, v) = check_tree m.added_files m.source_tree_sha256 "source tree" w in handled r v

    -- The manifest's own claims, before the tree is looked at.
    unfoldable pub check_manifest : Exec World (Unit {0})
    check_manifest = do
      demand (m.schema_version == 1) "manifest schema"
      commit ← see head
      demand (str_eq commit m.upstream_commit) "upstream commit"
      patch ← see (file_sha m.patch)
      demand (str_eq patch m.patch_sha256) "patch hash"
      check_inputs m.extraction_inputs

    unfoldable pub check : Bool → Exec World Manifest
    check applies = do
      check_manifest
      if applies then ensure else pure tt
      check_tree m.added_files m.source_tree_sha256 "source tree"
      see (reverse_check m.patch)
      pure m
