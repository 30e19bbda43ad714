-- ===== src/Snapshot.antt =====
-- scripts/source_snapshot.py: `capture`, the inventory of the sources of all repositories. What git
-- prints, the working trees and the digests are parameters.
pub mod Tree
pub mod Inventory
pub mod Recorded
pub mod Tests
use ckb_vm_sail_verify.Base.{
  String, ℕ, Bool, true, false, ◌&&◌, not, List, [], ◌∷◌, pos, if◌then◌else◌,
}
use ckb_vm_sail_verify.Base.Result.{Result, ok, require, ◌>>=◌, ◌>>◌}
use ckb_vm_sail_verify.Base.Json.{
  Value, bool, int, str, dict, Fields, end, field, fields, item, equal, truthy,
}
use ckb_vm_sail_verify.Audit.Checks.{expect, reach, agree, fields_of, keys, set_field}
use ckb_vm_sail_verify.Capsule.{repositories}
use ckb_vm_sail_verify.Capsule.Inspect.{same_names}
use ckb_vm_sail_verify.Capsule.Snapshot.{reads_empty}
use ckb_vm_sail_verify.Snapshot.Tree.{Repository}
use ckb_vm_sail_verify.Snapshot.Inventory.{inventory}

-- REPOS[1:]
abbrev pub submodules : List String
submodules = "deps/ckb-vm" ∷ "deps/sail-riscv" ∷ []

-- The revision that the project names is the one that the submodule is at, and it has no submodules.
unfoldable pub check_submodules : Value → List String → Result (Unit {0})
check_submodules repos [] = ok tt
check_submodules repos (name ∷ rest) = do
  expect
      (agree repos ("." ∷ "gitlinks" ∷ name ∷ []) repos (name ∷ "head" ∷ [])
        ∷ reads_empty repos (name ∷ "gitlinks" ∷ [])
        ∷ [])
      "submodule revision drift or unhandled nested submodule"
  check_submodules repos rest

-- `digest` is that of the canonical JSON text of a value, and `baseline` the check of the source of the
-- interpreter.
module _ (blob_id digest_of : List ℕ → String) (digest : Value → String)
    (repository : String → Repository) (baseline : Result Value) where
  -- {name: inventory(root / name) for name in REPOS}
  unfoldable pub inventories : List String → Result Fields
  inventories [] = ok end
  inventories (name ∷ rest) = do
    own ← inventory blob_id digest_of (repository name)
    others ← inventories rest
    ok (field name own others)

  unfoldable pub check_repositories : Value → Result (Unit {0})
  check_repositories repos = do
    given ← reach repos ("." ∷ "gitlinks" ∷ [])
    links ← fields_of given
    require (same_names (keys links) submodules) "unexpected project submodules"
    check_submodules repos submodules
    expect (reads_empty repos ("deps/sail-riscv" ∷ "changes_from_head" ∷ []) ∷ [])
        "unreviewed Sail source changes"

  unfoldable pub capture : Result Value
  capture = do
    repos ← inventories repositories
    check_repositories (dict repos)
    source ← baseline
    let result = fields (
        ("schema_version", int (pos 1))
        ∷ ("identity_kind", str "HEAD-plus-byte-inventoried-working-tree-not-a-commit")
        ∷ ("repositories", dict repos)
        ∷ ("ckb_source_baseline", source)
        ∷ ("ignored_build_and_evidence_files_included", bool false)
        ∷ ("semantic_review_claimed", bool false)
        ∷ [])
    ok (dict (set_field "snapshot_sha256" (str (digest (dict result))) result))
