-- ===== src/Minimize/Oracle.antt =====
-- `ReplayOracle` of scripts/minimize_mismatch.py. The system outside the script (files, digests,
-- the differential binary) is a parameter.
pub mod Rows
pub mod Observed
pub mod Records
use ckb_vm_sail_verify.Base.{
  ℕ, zero, suc, ◌+◌, ◌≡◌, Bool, true, false, ◌&&◌, Option, none, some, List, [], ◌∷◌, ◌++◌, map,
  length, ltb, leb, str_eq, if◌then◌else◌, String, ◌<>◌, ℤ, pos,
}
use ckb_vm_sail_verify.Base.Result.{
  Error, Result, ok, err, runtime_error, budget_exhausted, type_error, require,
}
use ckb_vm_sail_verify.Base.Result
use ckb_vm_sail_verify.Base.Exec.{Exec, ◌>>=◌, ◌>>◌, pure, raise, lift, demand}
use ckb_vm_sail_verify.Base.Json.{
  Value, null, bool, int, str, list, dict, nil, Fields, end, field, fields, items, item,
}
use ckb_vm_sail_verify.Minimize.Decimal.{decimal, decimal5}
use ckb_vm_sail_verify.Minimize.Artifact.{Signature, hex_words}
use ckb_vm_sail_verify.Minimize.Trial.{check_trial, check_environment}
use ckb_vm_sail_verify.Minimize.Input.{candidate_of}

pub data TrialStatus : Type 0 where
  running failed : TrialStatus
  observed : Option Signature → TrialStatus

-- A row of report['trials'], without the texts that repeat the command's paths.
pub record Trial : Type 0 where
  pub index : ℕ
  pub input_words : List ℕ
  pub input_sha256 : String
  pub command : List String
  pub exit_code : Option ℤ
  pub evidence_sha256 : List String
  pub status : TrialStatus

pub data ReportStatus : Type 0 where
  running minimized incomplete failed : ReportStatus

pub record Report : Type 0 where
  pub status : ReportStatus
  pub minimum_proved : Bool
  pub original_words : List ℕ
  pub signature : Option Signature
  pub trials : List Trial
  pub minimal_words : Option (List ℕ)
  pub retained_indices : Option (List ℕ)
  pub error : Option Error

-- What the script asks of the system.
pub record System : Type 1 where
  pub World : Type 0
  -- sha(path)
  pub sha : String → World → Result String
  -- Path.mkdir()
  pub mkdir : String → World → Result (Unit {0}) × World
  -- save(path, value), for a replay input and for the report
  pub save : String → Value → World → Result (Unit {0}) × World
  pub save_report : Report → World → Result (Unit {0}) × World
  -- json.loads(path.read_text())
  pub load : String → World → Result Value
  -- subprocess.run with its two output files: the exit code, or TimeoutExpired and the like
  pub run : List String → String → String → World → Result ℤ × World

pub record Arguments : Type 0 where
  pub differential_binary : String
  pub sail_bin : String
  pub sail_config : String
  pub sail_timeout : ℕ
  pub timeout : ℕ
  pub max_evaluations : ℕ
  pub directory : String
  pub artifact : String
  pub script : String
  pub classification : String
  pub rationale : String

pub record Identity : Type 0 where
  pub differential_binary : String
  pub sail_binary : String
  pub sail_config : String

unfoldable pub identity_eq : Identity → Identity → Bool
identity_eq a b =
    str_eq a.differential_binary b.differential_binary
    && str_eq a.sail_binary b.sail_binary
    && str_eq a.sail_config b.sail_config

-- The row of a trial that has not run yet.
unfoldable pub started : ℕ → List ℕ → String → List String → Trial
started number words input_sha command = record {
  index = number;
  input_words = words;
  input_sha256 = input_sha;
  command = command;
  exit_code = none;
  evidence_sha256 = [];
  status = TrialStatus.running;
}

-- The last row is the trial that is running; `row.update(...)`.
unfoldable pub update_last : (Trial → Trial) → List Trial → List Trial
update_last f [] = []
update_last f (x ∷ []) = f x ∷ []
update_last f (x ∷ y ∷ rest) = x ∷ update_last f (y ∷ rest)

module _ (sys : System) where
  open sys use {World, sha, mkdir, save, save_report, load, run}

  pub record Session : Type 0 where
    pub world : World
    pub report : Report

  unfoldable pub system : {A : Type 0} → (World → Result A × World) → Exec Session A
  system act s = let (r, w) = act s.world in (r, record s { world = w })

  unfoldable pub ask : {A : Type 0} → (World → Result A) → Exec Session A
  ask query s = (query s.world, s)

  unfoldable pub set_trials : (List Trial → List Trial) → Exec Session (Unit {0})
  set_trials f s = (ok tt, record s { report = record s.report { trials = f s.report.trials } })

  unfoldable pub save_now : Exec Session (Unit {0})
  save_now s = system (save_report s.report) s

  unfoldable pub identify : Arguments → Exec Session Identity
  identify args = do
    a ← ask (sha args.differential_binary)
    b ← ask (sha args.sail_bin)
    c ← ask (sha args.sail_config)
    pure (record { differential_binary = a; sail_binary = b; sail_config = c })

  module _ (args : Arguments) (artifact : Value) (identity : Identity) where
    unfoldable pub check_identity : Exec Session (Unit {0})
    check_identity = do
      now ← identify args
      demand (identity_eq now identity) "runner/config bytes changed during minimization"

    abbrev pub trial_directory : ℕ → String
    trial_directory number = args.directory <> "/trial-" <> decimal5 number

    abbrev pub replay_command : String → List String
    replay_command directory =
        args.differential_binary
        ∷ "--replay"
        ∷ (directory <> "/input.json")
        ∷ "--json"
        ∷ "--artifact-dir"
        ∷ (directory <> "/evidence")
        ∷ "--sail-bin"
        ∷ args.sail_bin
        ∷ "--sail-config"
        ∷ args.sail_config
        ∷ "--sail-timeout"
        ∷ decimal args.sail_timeout
        ∷ []

    -- The body of the `try`.
    unfoldable pub attempt : String → String → List ℕ → Exec Session (Option Signature)
    attempt directory input_sha words = do
      code ← system (
          run (replay_command directory) (directory <> "/stdout.json") (directory <> "/stderr.log"))
      set_trials (update_last (λ t. record t { exit_code = some code }))
      observed_artifact ← ask (load (directory <> "/evidence/candidate.json"))
      envelope ← ask (load (directory <> "/stdout.json"))
      result ← lift (check_trial envelope observed_artifact code words)
      before ← lift (item artifact "environment")
      after ← lift (item observed_artifact "environment")
      lift (check_environment before after)
      check_identity
      input_now ← ask (sha (directory <> "/input.json"))
      demand (str_eq input_now input_sha) "candidate input changed during execution"
      artifact_sha ← ask (sha (directory <> "/evidence/candidate.json"))
      stdout_sha ← ask (sha (directory <> "/stdout.json"))
      stderr_sha ← ask (sha (directory <> "/stderr.log"))
      set_trials (
          update_last (λ t. record t {
            status = observed result;
            evidence_sha256 = artifact_sha ∷ stdout_sha ∷ stderr_sha ∷ [];
          }))
      pure result

    -- `except BaseException: row.update(status='failed'); raise`, then `finally: save(...)`
    unfoldable pub settle : Result (Option Signature) → Exec Session (Option Signature)
    settle (ok result) = do save_now; pure result
    settle (err e) = do
      set_trials (update_last (λ t. record t { status = TrialStatus.failed }))
      save_now
      raise e

    unfoldable pub guarded : String → String → List ℕ → Exec Session (Option Signature)
    guarded directory input_sha words s =
        let (r, t) = attempt directory input_sha words s in settle r t

    -- __call__ after the budget test
    unfoldable pub trial : ℕ → List ℕ → Exec Session (Option Signature)
    trial number words = do
      check_identity
      let directory = trial_directory number
      system (mkdir directory)
      candidate ← lift (candidate_of artifact words)
      system (save (directory <> "/input.json") candidate)
      input_sha ← ask (sha (directory <> "/input.json"))
      set_trials (λ ts. ts ++ started number words input_sha (replay_command directory) ∷ [])
      save_now
      guarded directory input_sha words

    -- ReplayOracle.__call__
    unfoldable pub evaluate : List ℕ → Exec Session (Option Signature)
    evaluate words s =
        let number = length s.report.trials in
        if leb args.max_evaluations number
        then raise (budget_exhausted "replay budget exhausted; no minimality claim") s
        else trial number words s
