-- ===== src/Audit/Rocq.antt =====
-- `check_rocq` of scripts/audit_release.py: the report of the Rocq attempt, which says NO-GO and whose
-- rejections are read from their logs again.
pub mod Rejected
pub mod Accepted
use ckb_vm_sail_verify.Base.{
  String, ℕ, Bool, true, false, ◌&&◌, ◌||◌, not, Option, none, some, List, [], ◌∷◌, str_eq,
  if◌then◌else◌, ◌<>◌, pos, length,
}
use ckb_vm_sail_verify.Base.Result.{Result, ok, err, runtime_error, require, ◌>>=◌, ◌>>◌}
use ckb_vm_sail_verify.Base.Json.{Value, str, int, bool, dict, Fields, fields, item, equal}
use ckb_vm_sail_verify.Release.Manifest.{is_one_of}
use ckb_vm_sail_verify.Audit.Checks.{
  expect, reads, reads_false, reads_number, rows_of, fields_of, each_field, first_line_of,
}
use ckb_vm_sail_verify.Audit.Site.{Files, linked}
use ckb_vm_sail_verify.Audit.Lean.{step_policy}
use ckb_vm_sail_verify.Proof.Failure.{check_failure, is_infra_failure}

-- ROCQ_REJECTIONS.get(name)
unfoldable pub rejection_of : String → Option String
rejection_of name =
    if str_eq name "rust-model"
    then some "rust"
    else if str_eq name "sail-model" || str_eq name "sail-repro"
    then some "sail"
    else none

-- ROCQ_TRACKED_MODELS.get(name)
unfoldable pub tracked_model : String → Option String
tracked_model name =
    if str_eq name "rust/result_shadowing.v"
    then some "proof/rocq/spike/result_shadowing.v"
    else if str_eq name "sail/missing_e_div.v"
    then some "proof/rocq/spike/missing_e_div.v"
    else if str_eq name "sail/riscv_extras.v"
    then some "deps/sail-riscv/handwritten_support/riscv_extras.v"
    else none

abbrev pub rocq_stages : List String
rocq_stages =
    "rust-model" ∷ "sail-model" ∷ "sail-repro" ∷ "packages" ∷ "version" ∷ "rust-generate"
    ∷ "rust-repro" ∷ "sail-support" ∷ "sail-types" ∷ []

-- names, wanted <= set(names)
unfoldable pub includes_all : List String → List String → Bool
includes_all names [] = true
includes_all names (k ∷ ks) = is_one_of names k && includes_all names ks

-- A value that is no text is no safe name, and no name of a stage.
unfoldable pub file_name : Value → Result String
file_name (str s) = ok s
file_name _ = err (runtime_error "unsafe path")

unfoldable pub check_verdict : Value → Result (Unit {0})
check_verdict report =
    expect
      (reads_number report ("schema_version" ∷ []) 1
        ∷ reads report ("status" ∷ []) (str "passed")
        ∷ reads report ("verdict" ∷ []) (str "NO-GO")
        ∷ reads_false report ("extra_proof_coverage" ∷ [])
        ∷ reads_false report ("clean_room_claimed" ∷ [])
        ∷ [])
      "Rocq status/verdict"

-- value == 1
abbrev pub is_one : Value → Bool
is_one v = equal v (int (pos 1))

-- the two branches, by the rejection that is expected
unfoldable pub judge : Option String → String → Value → String → Result (Unit {0})
judge (some kind) name row log = do
  expect (reads row ("status" ∷ []) (str "expected_rejection") ∷ []) ("Rocq stage status: " <> name)
  code ← item row "exit_code"
  check_failure kind (is_one code) log
judge none name row log =
    expect
      (reads row ("status" ∷ []) (str "passed")
        ∷ reads_number row ("exit_code" ∷ []) 0
        ∷ ok (not (is_infra_failure log))
        ∷ [])
      ("Rocq stage failed: " <> name)

unfoldable pub check_outcome : String → Value → String → Result (Unit {0})
check_outcome name row log = judge (rejection_of name) name row log

module _ (files : Files) (read_text : files.FilePath → Result String) where
  open files use {FilePath, parent, child, sha, read}

  -- One stage; what it returns is its name.
  unfoldable pub check_rocq_stage : FilePath → Value → Result String
  check_rocq_stage out row = do
    given ← item row "name"
    name ← file_name given
    log_value ← item row "log"
    log_name ← file_name log_value
    hash ← item row "log_sha256"
    path ← linked files out log_name hash
    log ← read_text path
    check_outcome name row log
    ok name

  unfoldable pub check_rocq_stages : FilePath → List Value → Result (List String)
  check_rocq_stages out [] = ok []
  check_rocq_stages out (row ∷ rows) = do
    name ← check_rocq_stage out row
    names ← check_rocq_stages out rows
    ok (name ∷ names)

  unfoldable pub check_tracked : FilePath → Value → Option String → Result (Unit {0})
  check_tracked root digest none = ok tt
  check_tracked root digest (some source) = do
    hash ← sha (child root source)
    require (equal digest (str hash)) "Rocq reproduction source differs"

  unfoldable pub check_model : FilePath → FilePath → String → Value → Result (Unit {0})
  check_model out root name digest = do
    _ ← linked files out name digest
    check_tracked root digest (tracked_model name)

  unfoldable pub check_rocq : FilePath → FilePath → Result Value
  check_rocq path root = do
    report ← read path
    check_verdict report
    given ← item report "policy_sha256"
    hash ← sha (child root step_policy)
    require (equal given (str hash)) "Rocq report was produced under a different proof policy"
    stages ← item report "stages"
    rows ← rows_of stages
    names ← check_rocq_stages (parent path) rows
    require (includes_all names rocq_stages) "Rocq stage inventory"
    models ← item report "model_sha256"
    model_rows ← fields_of models
    each_field (check_model (parent path) root) model_rows
    version ← item report "rocq_version"
    line ← first_line_of version
    ok (
        dict (
          fields (
            ("verdict", str "NO-GO")
            ∷ ("stages", int (pos (length names)))
            ∷ ("rocq_version", line)
            ∷ ("extra_proof_coverage", bool false)
            ∷ [])))
