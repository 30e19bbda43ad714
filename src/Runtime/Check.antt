-- ===== src/Runtime/Check.antt =====
-- `check` of scripts/runtime_evidence.py: the report of a run with its tests, its corpus, the copies of
-- the artifacts and their replays.
pub mod Verified
use ckb_vm_sail_verify.Base.{
  String, ℕ, Bool, true, false, ◌&&◌, not, List, [], ◌∷◌, ◌++◌, map, str_eq, pos, length,
}
use ckb_vm_sail_verify.Base.Result.{
  Result, ok, err, runtime_error, key_error, type_error, require, ◌>>=◌, ◌>>◌,
}
use ckb_vm_sail_verify.Base.Text.{append}
use ckb_vm_sail_verify.Base.Json.{Value, int, str, list, dict, items, fields, item, equal, same}
use ckb_vm_sail_verify.Release.Names.{parts_of}
use ckb_vm_sail_verify.Release.Stages.{check_stages}
use ckb_vm_sail_verify.Proof.{same_texts, names_of}
use ckb_vm_sail_verify.Audit.Checks.{expect, reach, reads, reads_false, reads_number, rows_of, part}
use ckb_vm_sail_verify.Audit.Site.{Files, member, linked, sha_below}
use ckb_vm_sail_verify.Audit.Ci.{reads_sha}
use ckb_vm_sail_verify.Runtime.Trace.{elem}
use ckb_vm_sail_verify.Runtime.Case.{reads_exactly, check_replay}
use ckb_vm_sail_verify.Runtime.Mutations.{text_at}
use ckb_vm_sail_verify.Runtime.TestLog.{engine_tests, check_test_log}
use ckb_vm_sail_verify.Runtime.Validate.{ids_of, validate}

abbrev pub sail_bin : String
sail_bin = "deps/sail-riscv/build/c_emulator/sail_riscv_sim"

abbrev pub sail_config : String
sail_config = "sail-model/build/ckb_vm_config.json"

abbrev pub test_command : List String
test_command =
    "cargo" ∷ "test" ∷ "--workspace" ∷ "--locked" ∷ "--" ∷ "--include-ignored" ∷ "--test-threads=1"
    ∷ []

-- Path(name).parts[-2:]
unfoldable pub last_two : List String → List String
last_two [] = []
last_two (x ∷ []) = x ∷ []
last_two (x ∷ y ∷ []) = x ∷ y ∷ []
last_two (x ∷ y ∷ z ∷ rest) = last_two (y ∷ z ∷ rest)

abbrev pub ends_in : String → String → String → Bool
ends_in path directory name = same_texts (last_two (parts_of path)) (directory ∷ name ∷ [])

-- The command of a replay, up to the root under which it ran.
unfoldable pub is_replay_command : String → String → List String → Bool
is_replay_command binary name (a ∷ b ∷ c ∷ d ∷ e ∷ f ∷ g ∷ input ∷ h ∷ output ∷ []) =
    same_texts (a ∷ b ∷ c ∷ d ∷ e ∷ f ∷ g ∷ []) (
      binary ∷ "--json" ∷ "--sail-bin" ∷ sail_bin ∷ "--sail-config" ∷ sail_config ∷ "--replay" ∷ [])
    && ends_in input "relocated" (append name ".json")
    && str_eq h "--artifact-dir"
    && ends_in output "replays" name
is_replay_command binary name _ = false

unfoldable pub argv_of : Value → Result (List String)
argv_of row = do argv ← item row "argv"; names_of argv

-- for stage_row, name in zip(report['stages'][3:], ids)
unfoldable pub check_commands : String → List Value → List String → Result (Unit {0})
check_commands binary (row ∷ rows) (name ∷ names) = do
  argv ← argv_of row
  require (is_replay_command binary name argv) "replay command changed"
  check_commands binary rows names
check_commands binary _ _ = ok tt

unfoldable pub first_text : List String → Result String
first_text [] = err (key_error "")
first_text (x ∷ xs) = ok x

abbrev pub drop_three : List Value → List Value
drop_three (a ∷ b ∷ c ∷ rest) = rest
drop_three _ = []

abbrev pub replay_stages : List String → List String
replay_stages ids =
    "verify-environment" ∷ "build-cli" ∷ "corpus-mutations" ∷ map (append "replay-") ids

unfoldable pub case_ids : List Value → Result (List String)
case_ids [] = ok []
case_ids (row ∷ rows) = do id ← text_at row "case_id"; ids ← case_ids rows; ok (id ∷ ids)

unfoldable pub check_run_status : Value → Result (Unit {0})
check_run_status report =
    expect
      (reads_number report ("schema_version" ∷ []) 1
        ∷ reads report ("kind" ∷ []) (str "runtime-evidence-v1")
        ∷ reads report ("status" ∷ []) (str "passed")
        ∷ reads_false report ("release_claimed" ∷ [])
        ∷ reads_false report ("sail_emulator_rebuilt" ∷ [])
        ∷ [])
      "runtime report incomplete/assurance changed"

module _ (files : Files) (entries : files.FilePath → Result (List String))
    (read_text : files.FilePath → Result String) where
  open files use {FilePath, parent, child, resolve, is_below, is_file, is_symlink, read}

  -- The Rust tests ran in the same environment, and their log says that they passed.
  unfoldable pub check_tests : FilePath → Value → Value → Result ℕ
  check_tests out report expected = do
    recorded ← reach report ("rust_tests" ∷ [])
    name ← text_at recorded "path"
    let path = resolve (child out name)
    expect
        (ok (is_below path (parent (resolve out)) && is_file path && not (is_symlink path))
          ∷ reads_sha files recorded ("sha256" ∷ []) path
          ∷ [])
        "Rust test report missing/outside/changed"
    value ← read path
    expect
        (reads value ("kind" ∷ []) (str "rust-tests-v1")
          ∷ reads value ("status" ∷ []) (str "passed")
          ∷ reads_exactly value ("environment" ∷ []) expected
          ∷ [])
        "Rust test report status/environment"
    stages ← item value "stages"
    check_stages (sha_below files (parent path)) stages ("verify-environment" ∷ "cargo-test" ∷ [])
    rows ← rows_of stages
    row ← elem 1 rows
    argv ← argv_of row
    require (same_texts argv test_command) "Rust test command changed"
    log ← read_text (child (parent path) "cargo-test.stdout")
    passed ← check_test_log log
    expect (reads value ("tests_passed" ∷ []) (int (pos passed)) ∷ [])
        "Rust test count differs from log"
    ok passed

  -- One replay: what it wrote, and the copy that it was given.
  unfoldable pub check_replayed : FilePath → Value → Value → Result (Unit {0})
  check_replayed out expected row = do
    name ← text_at row "case_id"
    hash ← item row "artifact_sha256"
    artifact_path ←
        linked files out (append "replays/" (append name (append "/" (append name ".json")))) hash
    input_hash ← item row "input_sha256"
    original_path ← linked files out (append "relocated/" (append name ".json")) input_hash
    report ← read (child out (append "replay-" (append name ".stdout")))
    artifact ← read artifact_path
    original ← read original_path
    check_replay report artifact original expected

  unfoldable pub check_replays : FilePath → Value → List Value → Result (Unit {0})
  check_replays out expected [] = ok tt
  check_replays out expected (row ∷ rows) = do
    check_replayed out expected row
    check_replays out expected rows

  -- The corpus, in the originals and in the copies.
  unfoldable pub check_copies : FilePath → Value → Value → Result (FilePath × Value)
  check_copies out report expected = do
    corpus ← member files out "corpus-mutations.stdout"
    result ← validate files entries corpus (child out "original") expected
    expect (reads_exactly report ("runtime" ∷ []) result ∷ [])
        "runtime originals/copies no longer agree"
    copied ← validate files entries corpus (child out "relocated") expected
    require (same result copied) "runtime originals/copies no longer agree"
    ok (corpus, result)

  -- The stages of the run, with the command of each replay.
  unfoldable pub check_run_stages : FilePath → Value → List String → Result (Unit {0})
  check_run_stages out report ids = do
    stages ← item report "stages"
    check_stages (sha_below files out) stages (replay_stages ids)
    hash ← item report "binary_sha256"
    _ ← linked files out "ckb-vm-sail-diff" hash
    rows ← rows_of stages
    row ← elem 2 rows
    argv ← argv_of row
    binary ← first_text argv
    check_commands binary (drop_three rows) ids

  unfoldable pub check : FilePath → Result Value
  check path = do
    let out = parent path
    report ← read path
    check_run_status report
    expected ← item report "environment"
    passed ← check_tests out report expected
    (corpus, result) ← check_copies out report expected
    corpus_report ← read corpus
    given ← item corpus_report "results"
    rows ← rows_of given
    ids ← ids_of rows
    check_run_stages out report ids
    replays ← item report "replays"
    replay_rows ← rows_of replays
    replayed ← case_ids replay_rows
    require (same_texts replayed ids) "replay inventory"
    check_replays out expected replay_rows
    cases ← item result "cases"
    families ← item result "families"
    mutations ← item result "mutations"
    environment ← part expected ("rustc" ∷ "cargo" ∷ "sail_compiler" ∷ "sail_model_version" ∷ [])
    ok (
        dict (
          fields (
            (
              "scope",
              str "corpus_differential_mutation_matrix_relocated_replays_and_workspace_tests",
            )
            ∷ ("cases", cases)
            ∷ ("families", families)
            ∷ ("mutations", mutations)
            ∷ ("replays", int (pos (length ids)))
            ∷ ("rust_tests_passed", int (pos passed))
            ∷ ("engine_tests", int (pos (length engine_tests)))
            ∷ ("environment", dict environment)
            ∷ [])))
