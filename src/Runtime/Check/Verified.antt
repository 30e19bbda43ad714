-- ===== src/Runtime/Check/Verified.antt =====
-- What an accepted run shows.
use ckb_vm_sail_verify.Base.{String, ℕ, ◌≡◌, ◌<◌, true, List, [], ◌∷◌, all}
use ckb_vm_sail_verify.Base.Result.{Result, ok}
use ckb_vm_sail_verify.Base.Result.Returns.{Returns}
use ckb_vm_sail_verify.Base.Text.{append, lines}
use ckb_vm_sail_verify.Base.Json.{Value, item}
use ckb_vm_sail_verify.Release.Manifest.{is_one_of}
use ckb_vm_sail_verify.Audit.Checks.{rows_of}
use ckb_vm_sail_verify.Audit.Site.{Files}
use ckb_vm_sail_verify.Runtime.Case.{keep, only_result, replayed_keys}
use ckb_vm_sail_verify.Runtime.Case.Accepted.{IsAccepted}
use ckb_vm_sail_verify.Runtime.Mutations.{text_at}
use ckb_vm_sail_verify.Runtime.TestLog.{engine_tests, passed_tests, count_passed}
use ckb_vm_sail_verify.Runtime.Validate.Validated.{IsValidated}

-- Every harness of the log ended without a failure, some test passed, and all the tests of the engines
-- did.
pub record HasPassed (log : String) (passed : ℕ) : Type 0 where
  pub counted : count_passed (lines log) ≡ ok passed
  pub some_passed : 0 < passed
  pub engines : all (is_one_of (passed_tests (lines log))) engine_tests ≡ true

-- The replayed artifact is an accepted case with the program, the traces and the packets of the original.
pub record IsReplayed (report artifact original : Value) : Type 0 where
  pub row : Value
  pub has_row : only_result report ≡ ok row
  pub accepted : IsAccepted row artifact
  pub unchanged : keep artifact original replayed_keys ≡ ok tt

module _ (files : Files) (entries : files.FilePath → Result (List String))
    (read_text : files.FilePath → Result String) where
  open files use {FilePath, parent, child, resolve, read}

  -- A replay of one case: the artifact that it wrote and the copy that it read are kept by their digests.
  pub record HasReplay (out : FilePath) (row : Value) : Type 0 where
    pub name : String
    pub has_name : text_at row "case_id" ≡ ok name
    pub report : Value
    pub artifact : Value
    pub original : Value
    pub replayed : FilePath
    pub copied : FilePath
    pub has_report : read (child out (append "replay-" (append name ".stdout"))) ≡ ok report
    pub has_artifact : read replayed ≡ ok artifact
    pub has_original : read copied ≡ ok original
    pub same : IsReplayed report artifact original

  abbrev pub HaveReplays : FilePath → List Value → Type 0
  HaveReplays out [] = Unit
  HaveReplays out (row ∷ rows) = HasReplay out row × HaveReplays out rows

  pub record IsVerified (path : FilePath) : Type 0 where
    pub report : Value
    pub has_report : read path ≡ ok report
    pub passed : ℕ
    pub log_path : FilePath
    pub log : String
    pub has_log : read_text log_path ≡ ok log
    pub tests : HasPassed log passed
    pub corpus : FilePath
    pub originals : IsValidated files entries corpus (child (parent path) "original")
    pub copies : IsValidated files entries corpus (child (parent path) "relocated")
    pub given : Value
    pub has_replays : item report "replays" ≡ ok given
    pub rows : List Value
    pub has_rows : rows_of given ≡ ok rows
    pub replays : HaveReplays (parent path) rows
