-- ===== src/CiEvidence.antt =====
-- scripts/ci_evidence.py: `select_remote`, which takes one run of CI, its jobs and its artifact from what
-- GitHub says of them, and `unique_bundle`.
use ckb_vm_sail_verify.Base.{
  String, ℕ, Bool, false, not, List, [], ◌∷◌, pos, ◌==◌, length, all, if◌then◌else◌,
}
use ckb_vm_sail_verify.Base.Result.{
  Result, ok, err, runtime_error, type_error, require, ◌>>=◌, ◌>>◌,
}
use ckb_vm_sail_verify.Base.Text.{append}
use ckb_vm_sail_verify.Base.Json.{
  Value, null, int, str, find, list, dict, Fields, end, equal, is_dict, elements, truthy, item,
}
use ckb_vm_sail_verify.Release.Manifest.{is_one_of}
use ckb_vm_sail_verify.Release.Stages.{or_null}
use ckb_vm_sail_verify.Audit.Checks.{expect, keys, set_field}
use ckb_vm_sail_verify.Audit.Lean.{is_int}
use ckb_vm_sail_verify.Audit.Policy.{CiPolicy}
use ckb_vm_sail_verify.Audit.Publication.{get, gets, gets_false}
use ckb_vm_sail_verify.Capsule.Inspect.{same_names}

-- value.get(key) in names
unfoldable pub gets_one_of : Value → String → List String → Result Bool
gets_one_of v k names = do w ← get v k; ok (not (all (λ name. not (equal w (str name))) names))

-- type(value.get(key)) is int
unfoldable pub gets_int : Value → String → Result Bool
gets_int v k = do w ← get v k; ok (is_int w)

unfoldable pub check_run : Value → CiPolicy → ℕ → String → Result (Unit {0})
check_run run cfg run_id candidate =
    expect
      (ok (is_dict run)
        ∷ gets run "id" (int (pos run_id))
        ∷ gets run "head_sha" (str candidate)
        ∷ gets_one_of run "event" ("push" ∷ "workflow_dispatch" ∷ [])
        ∷ gets run "conclusion" (str "success")
        ∷ gets run "path" (str cfg.workflow)
        ∷ gets_int run "run_attempt"
        ∷ [])
      "remote run identity/result"

-- payload.get(key) if type(payload) is dict else None
unfoldable pub listed_in : Value → String → Result Value
listed_in (dict fs) k = get (dict fs) k
listed_in _ k = ok null

-- type(rows) is list and len(rows) == count
unfoldable pub rows_in : Value → ℕ → Result (List Value)
rows_in (list rows) count = do
  require (length (elements rows) == count) "remote job count"
  ok (elements rows)
rows_in _ count = err (runtime_error "remote job count")

-- row.get('name') not in jobs. A name that is no text is refused here; in the code it is a name that
-- none of the jobs has.
abbrev pub new_name : Value → Result String
new_name (str name) = ok name
new_name _ = err (runtime_error "remote job names")

-- The loop, with the jobs so far.
unfoldable pub add_jobs : List Value → Fields → Result Fields
add_jobs [] jobs = ok jobs
add_jobs (row ∷ rest) jobs = do
  expect (ok (is_dict row) ∷ gets_int row "id" ∷ gets row "conclusion" (str "success") ∷ [])
      "remote job identity/result"
  given ← item row "name"
  name ← new_name given
  require (not (is_one_of (keys jobs) name)) "remote job identity/result"
  add_jobs rest (set_field name row jobs)

-- for row in (artifacts or [])
abbrev pub rows_or_none : Value → Result (List Value)
rows_or_none (list rows) = ok (elements rows)
rows_or_none v = if truthy v then err type_error else ok []

-- type(row) is dict and row.get('name') == name
abbrev pub has_name : Value → String → Bool
has_name (dict fs) name = equal (or_null (find "name" fs)) (str name)
has_name _ name = false

unfoldable pub matches : List Value → String → List Value
matches [] name = []
matches (row ∷ rest) name =
    let others = matches rest name in if has_name row name then row ∷ others else others

unfoldable pub only_artifact : List Value → Result Value
only_artifact (row ∷ []) = do
  expect (gets_int row "id" ∷ gets_false row "expired" ∷ []) "remote artifact identity/expiry"
  ok row
only_artifact _ = err (runtime_error "remote artifact identity/expiry")

unfoldable pub select_remote :
    Value → Value → Value → CiPolicy → ℕ → String → Result (Fields × Value)
select_remote run jobs_payload artifacts_payload cfg run_id candidate = do
  check_run run cfg run_id candidate
  given ← listed_in jobs_payload "jobs"
  rows ← rows_in given (length cfg.jobs)
  jobs ← add_jobs rows end
  require (same_names (keys jobs) cfg.jobs) "remote job names"
  artifacts ← listed_in artifacts_payload "artifacts"
  candidates ← rows_or_none artifacts
  artifact ← only_artifact (matches candidates (append cfg.artifact_name_prefix candidate))
  ok (jobs, artifact)

-- The files of the directory that end in .jsonl, each with whether it is a file and no link.
unfoldable pub unique_bundle : {A : Type 0} → List (A × Bool) → Result A
unique_bundle ((path, plain) ∷ []) = do
  require plain "missing/ambiguous attestation bundle"
  ok path
unique_bundle _ = err (runtime_error "missing/ambiguous attestation bundle")
