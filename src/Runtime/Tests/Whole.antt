-- ===== src/Runtime/Tests/Whole.antt =====
-- A whole run of thirty cases, and the theorem about `check` at it.
use ckb_vm_sail_verify.Base.{String, ℕ, true, false, List, [], ◌∷◌, ◌++◌, map, pos}
use ckb_vm_sail_verify.Base.Result.{Result, ok}
use ckb_vm_sail_verify.Base.Text.{append}
use ckb_vm_sail_verify.Base.Json.{
  Value, null, bool, int, str, list, dict, Fields, end, items, fields, field, item,
}
use ckb_vm_sail_verify.Minimize.Decimal
use ckb_vm_sail_verify.Minimize.Artifact
use ckb_vm_sail_verify.Runtime.Trace
use ckb_vm_sail_verify.Runtime.Case
use ckb_vm_sail_verify.Runtime.Mutations
use ckb_vm_sail_verify.Runtime.TestLog
use ckb_vm_sail_verify.Runtime.Validate
use ckb_vm_sail_verify.Runtime.Check
use ckb_vm_sail_verify.Audit.Checks
use ckb_vm_sail_verify.Audit.Site
use ckb_vm_sail_verify.Audit.Ci
use ckb_vm_sail_verify.Release.Names
use ckb_vm_sail_verify.Release.Manifest
use ckb_vm_sail_verify.Release.Stages
use ckb_vm_sail_verify.Proof
use ckb_vm_sail_verify.Base.Text
use ckb_vm_sail_verify.Release.Names.{split}
use ckb_vm_sail_verify.Audit.Site.{Files}
use ckb_vm_sail_verify.Proof.{same_texts}
use ckb_vm_sail_verify.Runtime.Mutations.{Tally}
use ckb_vm_sail_verify.Runtime.TestLog.{engine_tests}
use ckb_vm_sail_verify.Runtime.Validate.{hash_fields, corpus_summary}
use ckb_vm_sail_verify.Runtime.Case.{replay_summary}
use ckb_vm_sail_verify.Runtime.Check.{sail_bin, sail_config, test_command, replay_stages}
use ckb_vm_sail_verify.Runtime.Tests.Corpus.{Sample, addi_word, artifact_of, row_of, summary_of}

abbrev digits : List String
digits = "0" ∷ "1" ∷ "2" ∷ "3" ∷ "4" ∷ "5" ∷ "6" ∷ "7" ∷ "8" ∷ "9" ∷ []

abbrev sample : String → String → ℕ → String → Sample
sample prefix family word n = record { id = append prefix n; family = family; word = word }

-- add x1, x0, x0 and beq x0, x0, 0
abbrev samples : List Sample
samples =
    map (sample "add-" "ADD" 0xb3) digits
    ++ map (sample "addi-" "ADDI" addi_word) digits
    ++ map (sample "beq-" "BEQ" 0x63) digits

abbrev ids : List String
ids = map (λ s. s.id) samples

abbrev environment : Value
environment = dict (
    fields (
      ("rustc", str "1")
      ∷ ("cargo", str "1")
      ∷ ("sail_compiler", str "1")
      ∷ ("sail_model_version", str "1")
      ∷ []))

abbrev zeros : String
zeros = "aaaaaaaaaaaaaaaaaaaaaaaaaaaaaaaaaaaaaaaaaaaaaaaaaaaaaaaaaaaaaaaa"

abbrev reference : Value
reference = dict (fields (("path", str "out.txt") ∷ ("sha256", str zeros) ∷ []))

abbrev stage : String → List String → Value
stage name argv = dict (
    fields (
      ("name", str name)
      ∷ ("argv", list (items (map str argv)))
      ∷ ("cwd", str ".")
      ∷ ("exit_code", int (pos 0))
      ∷ ("stdout", reference)
      ∷ ("stderr", reference)
      ∷ []))

abbrev replay_argv : String → List String
replay_argv id =
    "bin"
    ∷ "--json"
    ∷ "--sail-bin"
    ∷ sail_bin
    ∷ "--sail-config"
    ∷ sail_config
    ∷ "--replay"
    ∷ append "/run/relocated/" (append id ".json")
    ∷ "--artifact-dir"
    ∷ append "/run/replays/" id
    ∷ []

abbrev run_stages : List Value
run_stages =
    stage "verify-environment" ("bash" ∷ [])
    ∷ stage "build-cli" ("cargo" ∷ [])
    ∷ stage "corpus-mutations" ("bin" ∷ [])
    ∷ map (λ id. stage (append "replay-" id) (replay_argv id)) ids

abbrev counts : Value
counts = dict (
    fields (
      ("pc_after", int (pos 30))
      ∷ ("register_index", int (pos 30))
      ∷ ("register_value", int (pos 30))
      ∷ ("trap", int (pos 30))
      ∷ ("trace_length", int (pos 30))
      ∷ ("termination", int (pos 30))
      ∷ ("applied", int (pos 180))
      ∷ []))

abbrev families : Value
families =
    dict (fields (("ADD", int (pos 10)) ∷ ("ADDI", int (pos 10)) ∷ ("BEQ", int (pos 10)) ∷ []))

abbrev pub artifact_names : List String
artifact_names = map (λ id. append id ".json") ids ++ ("mutations.json" ∷ [])

abbrev runtime : Value
runtime = dict (
    fields (
      ("status", str "runtime_evidence_verified")
      ∷ ("report_sha256", str zeros)
      ∷ ("artifact_sha256", dict (hash_fields (map (λ n. (n, zeros)) artifact_names)))
      ∷ ("cases", int (pos 30))
      ∷ ("families", families)
      ∷ ("mutations", counts)
      ∷ ("release_claimed", bool false)
      ∷ []))

abbrev replay_row : String → Value
replay_row id = dict (
    fields
      (("case_id", str id) ∷ ("artifact_sha256", str zeros) ∷ ("input_sha256", str zeros) ∷ []))

abbrev run_report : Value
run_report = dict (
    fields (
      ("schema_version", int (pos 1))
      ∷ ("kind", str "runtime-evidence-v1")
      ∷ ("status", str "passed")
      ∷ ("release_claimed", bool false)
      ∷ ("sail_emulator_rebuilt", bool false)
      ∷ ("environment", environment)
      ∷ ("rust_tests", dict (fields (("path", str "tests.json") ∷ ("sha256", str zeros) ∷ [])))
      ∷ ("runtime", runtime)
      ∷ ("stages", list (items run_stages))
      ∷ ("binary_sha256", str zeros)
      ∷ ("replays", list (items (map replay_row ids)))
      ∷ []))

abbrev tests_report : Value
tests_report = dict (
    fields (
      ("kind", str "rust-tests-v1")
      ∷ ("status", str "passed")
      ∷ ("environment", environment)
      ∷ (
        "stages",
        list (
            items
              (stage "verify-environment" ("bash" ∷ []) ∷ stage "cargo-test" test_command ∷ [])),
      )
      ∷ ("tests_passed", int (pos 10))
      ∷ []))

abbrev summary : Value
summary = summary_of "add-0" samples

abbrev corpus_report : Value
corpus_report = dict (
    fields (
      ("schema_version", int (pos 3))
      ∷ ("mode", str "corpus")
      ∷ ("terminal_policy", str "exact")
      ∷ ("environment", environment)
      ∷ ("results", list (items (map row_of samples)))
      ∷ ("summary", corpus_summary 30)
      ∷ ("seed", null)
      ∷ ("mutations", summary)
      ∷ []))

abbrev mutations_file : Value
mutations_file = dict (
    fields (
      ("schema_version", int (pos 3))
      ∷ ("environment", environment)
      ∷ ("seed", null)
      ∷ ("summary", summary)
      ∷ ("replay", str "ckb-vm-sail-diff --mutate")
      ∷ []))

abbrev replay_report : Sample → Value
replay_report s = dict (
    fields (
      ("schema_version", int (pos 3))
      ∷ ("mode", str "replay")
      ∷ ("terminal_policy", str "exact")
      ∷ ("mutations", null)
      ∷ ("seed", null)
      ∷ ("environment", environment)
      ∷ ("summary", replay_summary)
      ∷ ("results", list (items (row_of s ∷ [])))
      ∷ []))

abbrev sample_files : List Sample → Fields
sample_files [] = end
sample_files (s ∷ rest) =
    field (append s.id ".json") (artifact_of environment s)
      (field (append "replay-" (append s.id ".stdout")) (replay_report s) (sample_files rest))

abbrev pub table : Fields
table = field "runtime.json" run_report (
    field "tests.json" tests_report (
      field "corpus-mutations.stdout" corpus_report
        (field "mutations.json" mutations_file (sample_files samples))))

abbrev last_name : List String → String
last_name [] = ""
last_name (x ∷ p) = x

abbrev above : List String → List String
above [] = []
above (x ∷ p) = p

abbrev below : List String → List String → List String
below p [] = p
below p (x ∷ xs) = below (x ∷ p) xs

-- A path is the list of its names, the last one first; what a file holds depends on its name alone.
abbrev files : Files
files = record {
  FilePath = List String;
  parent = above;
  name = last_name;
  child = λ p n. below p (split n);
  resolve = λ p. p;
  absolute = λ p. p;
  relative = λ p root. last_name p;
  is_same = same_texts;
  is_below = λ p root. true;
  exists = λ p. true;
  is_symlink = λ p. false;
  is_linked = λ p. false;
  is_file = λ p. true;
  has_plain_mode = λ p. ok true;
  size = λ p. ok 7;
  sha = λ p. ok zeros;
  read = λ p. item (dict table) (last_name p);
}

abbrev pub test_log : List String → String
test_log [] = "test result: ok. 10 passed; 0 failed; 0 ignored; 0 measured\n"
test_log (name ∷ names) = append "test engine::" (append name (append " ... ok\n" (test_log names)))

abbrev entries : List String → Result (List String)
entries p = ok artifact_names

abbrev read_text : List String → Result String
read_text p = ok (test_log engine_tests)

abbrev verified : Value
verified = dict (
    fields (
      ("scope", str "corpus_differential_mutation_matrix_relocated_replays_and_workspace_tests")
      ∷ ("cases", int (pos 30))
      ∷ ("families", families)
      ∷ ("mutations", counts)
      ∷ ("replays", int (pos 30))
      ∷ ("rust_tests_passed", int (pos 10))
      ∷ ("engine_tests", int (pos 10))
      ∷ ("environment", environment)
      ∷ []))
