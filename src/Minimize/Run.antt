-- ===== src/Minimize/Run.antt =====
-- `run` of scripts/minimize_mismatch.py. The report that it saves is returned beside the exit code.
pub mod Minimal
pub mod Outcome
pub mod Verdict
use ckb_vm_sail_verify.Base.{
  ℕ, zero, suc, ◌+◌, Bool, true, false, ◌&&◌, ◌||◌, not, Option, none, some, List, [], ◌∷◌, length,
  ltb, leb, ◌==◌, str_eq, if◌then◌else◌, String,
}
use ckb_vm_sail_verify.Base.Text.{is_blank}
use ckb_vm_sail_verify.Base.Result.{Error, Result, ok, err, budget_exhausted}
use ckb_vm_sail_verify.Base.Exec.{Exec, ◌>>=◌, ◌>>◌, pure, lift, demand}
use ckb_vm_sail_verify.Base.Json.{Value}
use ckb_vm_sail_verify.Minimize.Artifact.{Signature, is_passed, program, signature, matches}
use ckb_vm_sail_verify.Minimize.Search.{shortest_subsequence}
use ckb_vm_sail_verify.Minimize.Oracle.{
  ReportStatus, Report, Trial, System, Session, Arguments, ask, identify, evaluate,
}

abbrev triage : List String
triage =
    "unclassified_mismatch" ∷ "unsupported" ∷ "configuration_or_version_difference"
    ∷ "adapter_defect" ∷ "ckb_candidate_defect" ∷ []

unfoldable pub contains : List String → String → Bool
contains [] s = false
contains (x ∷ xs) s = str_eq x s || contains xs s

-- The report of a run that has just begun.
unfoldable pub initial_report : List ℕ → Option Signature → Report
initial_report words expected = record {
  status = ReportStatus.running;
  minimum_proved = false;
  original_words = words;
  signature = expected;
  trials = [];
  minimal_words = none;
  retained_indices = none;
  error = none;
}

module _ (sys : System) (args : Arguments) where
  open sys use {World, sha, mkdir, save_report, load}

  unfoldable pub query : {A : Type 0} → (World → Result A) → Exec World A
  query f w = (f w, w)

  -- report.update(status='minimized', minimum_proved=True, …)
  unfoldable pub record_minimum : List ℕ → List ℕ → Exec (Session sys) (Unit {0})
  record_minimum minimum indices s = (
    ok tt,
    record s {
      report = record s.report {
        status = ReportStatus.minimized;
        minimum_proved = true;
        minimal_words = some minimum;
        retained_indices = some indices;
      };
    },
  )

  -- The body of the `try`.
  unfoldable pub minimize :
      Value → List ℕ → Option Signature → String → String → Exec (Session sys) (Unit {0})
  minimize artifact words expected original_hash script_hash = do
    identity ← identify sys args
    let oracle = evaluate sys args artifact identity
    first ← oracle words
    demand (matches first expected) "original mismatch is not reproducible now"
    (minimum, indices) ← shortest_subsequence oracle (λ o. matches o expected) words
    last ← oracle minimum
    demand (matches last expected) "final minimized input is not reproducible"
    original_now ← ask sys (sha args.artifact)
    demand (str_eq original_now original_hash) "original evidence changed during minimization"
    script_now ← ask sys (sha args.script)
    demand (str_eq script_now script_hash) "minimizer source changed during run"
    record_minimum minimum indices

  -- 'incomplete' if isinstance(error, BudgetExhausted) else 'failed', and the exit code
  unfoldable pub failure : Error → ReportStatus × ℕ
  failure (budget_exhausted _) = (ReportStatus.incomplete, 2)
  failure _ = (ReportStatus.failed, 1)

  -- finally: save(...); return return_code
  unfoldable pub finish : ℕ → Report → Exec World (ℕ × Report)
  finish code report = do save_report report; pure (code, report)

  unfoldable pub conclude : Result (Unit {0}) → Session sys → Result (ℕ × Report) × World
  conclude (ok _) s = finish 0 s.report s.world
  conclude (err e) s =
      let (status, code) = failure e in
      finish code (record s.report { status = status; error = some e }) s.world

  unfoldable pub search :
      Value → List ℕ → Option Signature → String → String → Exec World (ℕ × Report)
  search artifact words expected original_hash script_hash w =
      let start : Session sys = record { world = w; report = initial_report words expected } in
      let (r, s) = minimize artifact words expected original_hash script_hash start in conclude r s

  unfoldable pub run : Exec World (ℕ × Report)
  run = do
    demand (contains triage args.classification && not (is_blank args.rationale))
        "classification rationale required"
    demand (leb 2 args.max_evaluations && ltb 0 args.timeout && ltb 0 args.sail_timeout)
        "invalid budget/timeout"
    original_hash ← query (sha args.artifact)
    artifact ← query (load args.artifact)
    words ← lift (program artifact)
    expected ← lift (signature artifact)
    demand (not (is_passed expected)) "matching artifact is not a mismatch to minimize"
    mkdir args.directory
    script_hash ← query (sha args.script)
    save_report (initial_report words expected)
    search artifact words expected original_hash script_hash
