-- ===== src/Snapshot/Inventory.antt =====
-- `inventory` of scripts/source_snapshot.py: the files of a repository as they stand, and how they
-- differ from its HEAD.
use ckb_vm_sail_verify.Base.{
  String, ℕ, ◌/◌, ◌%◌, Bool, true, false, ◌&&◌, ◌||◌, not, Option, none, some, List, [], ◌∷◌,
  str_eq, if◌then◌else◌, ◌==◌, pos, length,
}
use ckb_vm_sail_verify.Base.Result.{Result, ok, require, ◌>>=◌, ◌>>◌}
use ckb_vm_sail_verify.Base.Sorted.{sorted}
use ckb_vm_sail_verify.Base.Text.{strip}
use ckb_vm_sail_verify.Base.Json.{Value, null, int, str, dict, Fields, end, fields, find, equal}
use ckb_vm_sail_verify.Release.Names.{split}
use ckb_vm_sail_verify.Release.Manifest.{is_one_of}
use ckb_vm_sail_verify.Release.Stages.{or_null}
use ckb_vm_sail_verify.Audit.Checks.{keys, set_field}
use ckb_vm_sail_verify.Snapshot.Tree.{Repository, split_at, safe, regular, blob_value, entries}

-- A set of names: each once, without the empty one and without those that are left out.
unfoldable pub names_without : List String → List String → List String
names_without out [] = []
names_without out (x ∷ xs) =
    let rest = names_without out xs in
    if str_eq x "" || is_one_of out x || is_one_of rest x then rest else x ∷ rest

-- '100755' if mode & 0o111 else '100644'
abbrev pub git_mode : ℕ → String
git_mode mode =
    if mode % 2 == 1 || mode / 8 % 2 == 1 || mode / 64 % 2 == 1 then "100755" else "100644"

abbrev pub change : String → Value → Value → Value
change operation before after =
    dict (fields (("operation", str operation) ∷ ("before", before) ∷ ("after", after) ∷ []))

-- name not in original or original[name] != expected, and the change that this is
unfoldable pub changed : Option Value → Value → Value → Option Value
changed none expected after = some (change "added" null after)
changed (some before) expected after =
    if equal before expected then none else some (change "modified" before after)

abbrev pub with_change : String → Option Value → Fields → Fields
with_change name none changes = changes
with_change name (some c) changes = set_field name c changes

abbrev pub is_known : Option Value → Bool
is_known none = false
is_known (some _) = true

module _ (blob_id digest : List ℕ → String) (repo : Repository) where
  -- {'mode': mode, 'sha256': digest(data), 'size': len(data)}
  abbrev pub file_value : String → List ℕ → Value
  file_value mode content = dict (
      fields (
        ("mode", str mode)
        ∷ ("sha256", str (digest content))
        ∷ ("size", int (pos (length content)))
        ∷ []))

  unfoldable pub add_file : String → Fields → Fields × Fields → Result (Fields × Fields)
  add_file name original (files, changes) = do
    path ← regular repo name
    content ← repo.read_bytes path
    bits ← repo.mode path
    let mode = git_mode bits
    let after = file_value mode content
    let found = changed (find name original) (blob_value mode (blob_id content)) after
    ok (set_field name after files, with_change name found changes)

  -- not path.exists() and not path.is_symlink()
  abbrev pub is_missing : String → Bool
  is_missing name = not (repo.exists (split name)) && not (repo.is_symlink (split name))

  unfoldable pub add_files : List String → Fields → Fields × Fields → Result (Fields × Fields)
  add_files [] original found = ok found
  add_files (name ∷ rest) original found = do
    _ ← safe name
    more ← elim (is_missing name) [
      | true ↦ require (is_known (find name original)) "missing added source" >> ok found
      | false ↦ add_file name original found
    ]
    add_files rest original more

  -- The files of HEAD that do not stand.
  unfoldable pub add_deleted : List String → Fields → Fields → Fields
  add_deleted [] original changes = changes
  add_deleted (name ∷ rest) original changes =
      add_deleted rest original
        (set_field name (change "deleted" (or_null (find name original)) null) changes)

  unfoldable pub inventory : Result Value
  inventory = do
    (original, links) ← entries repo
    listing ← repo.ls_files
    (files, changes) ←
        add_files (sorted (names_without (keys links) (split_at 0 listing))) original (end, end)
    let deleted = sorted (names_without (keys files) (keys original))
    head ← repo.rev_parse
    ok (
        dict (
          fields (
            ("head", str (strip head))
            ∷ ("gitlinks", dict links)
            ∷ ("files", dict files)
            ∷ ("changes_from_head", dict (add_deleted deleted original changes))
            ∷ [])))
