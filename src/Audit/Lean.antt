-- ===== src/Audit/Lean.antt =====
-- `check_lean` of scripts/audit_release.py: the report of the Lean proof, whose audit is parsed from
-- its log again.
pub mod Proved
use ckb_vm_sail_verify.Base.{
  String, ℕ, Bool, true, false, ◌&&◌, not, Option, none, some, List, [], ◌∷◌, str_eq, if◌then◌else◌,
  ◌<>◌,
}
use ckb_vm_sail_verify.Base.Result.{Result, ok, err, runtime_error, require, ◌>>=◌, ◌>>◌}
use ckb_vm_sail_verify.Base.Json.{Value, str, int, bool, dict, fields, item, equal, same, is_dict}
use ckb_vm_sail_verify.Release.Stages.{text}
use ckb_vm_sail_verify.Audit.Checks.{
  expect, reach, reads, agree, reads_true, reads_false, reads_number, suffixed, rows_of, size_of,
}
use ckb_vm_sail_verify.Audit.Site.{Files, member, linked}
use ckb_vm_sail_verify.Proof.{parse_audit, boundary_hashes, check_audit}

abbrev pub step_policy : String
step_policy = "proof/lean/audit/step-policy.json"

abbrev pub lean_stages : List String
lean_stages =
    "sail-config" ∷ "generate-rust" ∷ "generate-sail" ∷ "kernel-step" ∷ "theorem-audit"
    ∷ "public-decoder" ∷ []

-- The log of a stage; of two with one name, the later.
abbrev pub log_of : String → List (String × String) → Option String
log_of name [] = none
log_of name ((n, body) ∷ logs) = if str_eq n name then some body else log_of name logs

unfoldable pub need_log : String → List (String × String) → Result String
need_log name logs = elim (log_of name logs) [
  | none ↦ err (runtime_error ("Lean stage missing: " <> name))
  | some body ↦ ok body
]

unfoldable pub need_logs : List String → List (String × String) → Result (Unit {0})
need_logs [] logs = ok tt
need_logs (name ∷ names) logs = do _ ← need_log name logs; need_logs names logs

-- row['log'] == row['name'] + '.log'
unfoldable pub has_log_name : Value → Result Bool
has_log_name row = do
  log ← item row "log"
  name ← item row "name"
  expected ← suffixed name ".log"
  ok (equal log expected)

-- same(value[key], other[key])
unfoldable pub reads_same : Value → Value → String → Result Bool
reads_same v other k = do a ← item v k; b ← item other k; ok (same a b)

-- type(value) is int
abbrev pub is_int : Value → Bool
is_int (int n) = true
is_int _ = false

unfoldable pub check_public : Value → Result (Unit {0})
check_public public = do
  require (is_dict public) "public decoder record"
  given ← item public "theorem"
  _ ← text given "public theorem"
  count ← item public "public_theorem_count"
  expect (ok (is_int count) ∷ reads_true public ("clean_dependency_build" ∷ []) ∷ [])
      "public decoder record"

unfoldable pub check_status : Value → Result (Unit {0})
check_status report =
    expect
      (reads_number report ("schema_version" ∷ []) 1
        ∷ reads report ("status" ∷ []) (str "passed")
        ∷ reads report ("assurance" ∷ []) (str "conditional")
        ∷ reads report ("coverage" ∷ []) (str "runtime-only")
        ∷ reads_false report ("release_audit" ∷ [])
        ∷ [])
      "Lean status/assurance"

module _ (files : Files) (read_text : files.FilePath → Result String)
    (loads : String → Result Value) (digest : Value → String) where
  open files use {FilePath, parent, child, sha, read}

  -- One stage: it passed, and its log is kept by its name. What it returns is its name and its log.
  unfoldable pub read_stage : FilePath → Value → Result (String × String)
  read_stage out row = do
    expect
        (reads row ("status" ∷ []) (str "passed")
          ∷ reads_number row ("exit_code" ∷ []) 0
          ∷ has_log_name row
          ∷ [])
        "Lean stage failed"
    log ← item row "log"
    log_name ← text log "unsafe path"
    hash ← item row "sha256"
    path ← linked files out log_name hash
    body ← read_text path
    given ← item row "name"
    name ← text given "unsafe path"
    ok (name, body)

  unfoldable pub read_stages :
      FilePath → List Value → List (String × String) → Result (List (String × String))
  read_stages out [] logs = ok logs
  read_stages out (row ∷ rows) logs = do log ← read_stage out row; read_stages out rows (log ∷ logs)

  -- The recorded audit and the one in the log agree.
  unfoldable pub check_recorded : FilePath → Value → Value → Result (Unit {0})
  check_recorded out audit policy = do
    path ← member files out "lean-audit.json"
    recorded ← read path
    require (equal audit recorded) "Lean audit record/log disagree"
    check_audit loads digest audit policy

  unfoldable pub check_lean : FilePath → FilePath → Result Value
  check_lean path root = do
    report ← read path
    policy ← read (child root step_policy)
    check_status report
    given ← item report "policy_sha256"
    hash ← sha (child root step_policy)
    require (equal given (str hash)) "Lean report was produced under a different proof policy"
    expect (reads_same report policy "theorem" ∷ []) "Lean theorem differs from policy"
    stages ← item report "stages"
    rows ← rows_of stages
    logs ← read_stages (parent path) rows []
    need_logs lean_stages logs
    log ← need_log "theorem-audit" logs
    audit ← parse_audit loads digest log
    check_recorded (parent path) audit policy
    hashes ← boundary_hashes loads digest audit
    expect (reads report ("boundary_sha256" ∷ []) hashes ∷ []) "Lean boundary hashes differ"
    public ← item report "public_decoder"
    check_public public
    theorem ← item audit "theorem"
    axioms ← item audit "axioms"
    axiom_count ← size_of axioms
    stage_count ← size_of stages
    public_theorem ← item public "theorem"
    public_count ← item public "public_theorem_count"
    ok (
        dict (
          fields (
            ("theorem", theorem)
            ∷ ("axioms", axiom_count)
            ∷ ("sorry_free", bool true)
            ∷ ("stages", stage_count)
            ∷ ("public_theorem", public_theorem)
            ∷ ("public_theorems", public_count)
            ∷ ("assurance", str "conditional")
            ∷ ("coverage", str "runtime-only")
            ∷ [])))
