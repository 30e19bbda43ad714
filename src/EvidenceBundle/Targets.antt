-- ===== src/EvidenceBundle/Targets.antt =====
-- What scripts/evidence_bundle.py asks of the checkout of a candidate and of the members of a bundle,
-- before it writes: `candidate_root`, `safe_member` and the first pass of `extract`.
use ckb_vm_sail_verify.Base.{
  String, ℕ, Bool, true, false, ◌&&◌, ◌||◌, not, Option, some, List, [], ◌∷◌, ◌++◌, map, str_eq,
  ◌==◌,
}
use ckb_vm_sail_verify.Base.Result.{Result, ok, require, ◌>>=◌, ◌>>◌}
use ckb_vm_sail_verify.Base.Text.{starts_with, strip}
use ckb_vm_sail_verify.Base.Json.{str}
use ckb_vm_sail_verify.FileSystem.{FilePath}
use ckb_vm_sail_verify.Release.Names.{split, parts_of, safe_name}
use ckb_vm_sail_verify.Release.Manifest.{is_hex_text, is_one_of}
use ckb_vm_sail_verify.Release.Inventory.{Item}
use ckb_vm_sail_verify.Capsule.{is_file_kind}
use ckb_vm_sail_verify.Disk.{Node, directory, Disk, node_at, is_there, has_link, beginnings}

-- CLEAN + '/'
abbrev pub clean_prefix : String
clean_prefix = "artifacts/boundary-check/clean-room/"

abbrev pub excluded : List String
excluded = "fixed-inputs" ∷ "cargo-target" ∷ "rust-tests-cargo-home" ∷ "runtime-cargo-home" ∷ []

abbrev pub report_name : String
report_name = "artifacts/boundary-check/clean-room/report.json"

abbrev pub record_name : String
record_name = "artifacts/boundary-check/clean-room/vm-provenance.json"

-- any(part in names for part in parts)
abbrev pub any_of : List String → List String → Bool
any_of names [] = false
any_of names (part ∷ rest) = is_one_of names part || any_of names rest

unfoldable pub safe_member : String → Result String
safe_member name = do
  _ ← safe_name (str name)
  require (starts_with clean_prefix name) "member outside the clean-room evidence prefix"
  require (not (any_of excluded (split name))) "excluded member"
  ok name

-- destination / name
abbrev pub below : FilePath → String → FilePath
below destination name = destination ++ parts_of name

-- p for p in path.parents if p.is_relative_to(destination), of a path below it
abbrev pub parents_in : FilePath → String → List FilePath
parents_in destination name = map (λ p. destination ++ p) (beginnings (parts_of name))

-- The first pass, with the names so far.
unfoldable pub check_targets : FilePath → Disk → List Item → List String → Result (List String)
check_targets destination disk [] targets = ok targets
check_targets destination disk (m ∷ rest) targets = do
  name ← safe_member m.path
  require (is_file_kind m.kind && str_eq m.linkname "") "special/link bundle member"
  require (not (is_one_of targets name)) "duplicate bundle member"
  require (not (is_there (below destination name) disk)) "bundle target occupied"
  require (not (has_link (parents_in destination name) disk)) "linked bundle target ancestor"
  check_targets destination disk rest (name ∷ targets)

unfoldable pub targets_of : FilePath → List Item → Disk → Result (List String)
targets_of destination items disk = do
  targets ← check_targets destination disk items []
  require (is_one_of targets report_name && is_one_of targets record_name)
      "bundle lacks the clean-room report or its VM provenance record"
  ok targets

abbrev pub is_directory : Option Node → Bool
is_directory (some directory) = true
is_directory _ = false

-- The exit code and the output of `git rev-parse HEAD` in the directory are a parameter, and the path
-- is one without links.
unfoldable pub candidate_root :
    (FilePath → Disk → ℕ × String) → FilePath → String → Disk → Result FilePath
candidate_root rev_parse root commit disk = do
  require (is_directory (node_at root disk) && is_there (root ++ ".git" ∷ []) disk)
      "candidate root is not a git checkout"
  require (is_hex_text 40 commit) "candidate must be a full commit OID"
  let (code, output) = rev_parse root disk
  require (code == 0 && str_eq (strip output) commit)
      "candidate root is not at the candidate commit"
  ok root
