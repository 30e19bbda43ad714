-- ===== src/Minimize/Trial.antt =====
-- `check_trial` and `check_environment` of scripts/minimize_mismatch.py: what one replay must
-- return before its outcome counts as an observation.
pub mod Checked
use ckb_vm_sail_verify.Base.{
  ℕ, ◌≡◌, Bool, true, false, ◌&&◌, ◌||◌, not, Option, none, some, List, [], ◌∷◌, length, ◌==◌,
  if◌then◌else◌, String, ◌<>◌, ℤ, pos, int_eq,
}
use ckb_vm_sail_verify.Base.Result.{Result, ok, err, type_error, require, both, ◌>>=◌, ◌>>◌}
use ckb_vm_sail_verify.Base.Json.{
  Value, null, bool, int, str, dict, item, find, fields, equal, is_none,
}
use ckb_vm_sail_verify.Minimize.Artifact.{Signature, is_passed, program, signature, length_of, row}

-- The `==` of two lists of words.
unfoldable pub words_eq : List ℕ → List ℕ → Bool
words_eq [] [] = true
words_eq (a ∷ as') (b ∷ bs) = a == b && words_eq as' bs
words_eq _ _ = false

abbrev pub field_is : Value → String → Value → Result Bool
field_is v k expected = do found ← item v k; ok (equal found expected)

-- for key in ['passed', 'classification', 'comparison', 'error']: require(result[key] == artifact[key])
unfoldable pub agree : Value → Value → List String → Result (Unit {0})
agree result artifact [] = ok tt
agree result artifact (key ∷ rest) = do
  left ← item result key
  right ← item artifact key
  require (equal left right) ("report/artifact disagreement: " <> key)
  agree result artifact rest

abbrev flag : Bool → ℤ
flag true = pos 0
flag false = pos 1

abbrev pub summary_of : Bool → Value
summary_of passed = dict (
    fields (
      ("total", int (pos 1))
      ∷ ("failures", int (flag passed))
      ∷ ("mutations_passed", null)
      ∷ ("passed", bool passed)
      ∷ []))

-- The mode, the number of results, and the input that was replayed.
unfoldable pub check_mode : Value → Value → List ℕ → Result (Unit {0})
check_mode envelope artifact expected_words = do
  mode ← both (field_is envelope "schema_version" (int (pos 3))) (
      both (field_is envelope "mode" (str "replay")) (
        both (field_is envelope "terminal_policy" (str "exact"))
          (do mutations ← item envelope "mutations"; ok (is_none mutations))))
  require mode "wrong replay comparison mode"
  results ← item envelope "results"
  count ← length_of results
  require (count == 1) "expected one replay result"
  words ← program artifact
  require (words_eq words expected_words) "runner used a different input"

-- The one result is about the artifact, its environment and its case.
unfoldable pub check_result : Value → Value → List ℕ → Result (Unit {0})
check_result envelope artifact expected_words = do
  results ← item envelope "results"
  result ← row results 0
  agree result artifact ("passed" ∷ "classification" ∷ "comparison" ∷ "error" ∷ [])
  left ← item envelope "environment"
  right ← item artifact "environment"
  require (equal left right) "report/artifact environment disagreement"
  same_case ←
      both
        (do
          id ← item result "id"
          case ← item artifact "case"
          case_id ← item case "id"
          ok (equal id case_id))
        (field_is result "instructions" (int (pos (length expected_words))))
  require same_case "replay result identifies a different case"

unfoldable pub check_trial : Value → Value → ℤ → List ℕ → Result (Option Signature)
check_trial envelope artifact exit_code expected_words = do
  require (int_eq exit_code (pos 0) || int_eq exit_code (pos 1)) "abnormal replay process exit"
  check_mode envelope artifact expected_words
  check_result envelope artifact expected_words
  observed ← signature artifact
  let passed = is_passed observed
  summary ← item envelope "summary"
  require (equal summary (summary_of passed)) "inconsistent replay summary"
  require (int_eq exit_code (flag passed)) "replay exit does not match observed outcome"
  ok observed

abbrev pub environment_keys : List String
environment_keys =
    "ckb_vm_commit" ∷ "ckb_vm_source_baseline" ∷ "sail_riscv_commit" ∷ "sail_model_version"
    ∷ "sail_config_sha256" ∷ "ckb_vm_isa_bits" ∷ "ckb_vm_isa" ∷ "ckb_vm_version" ∷ "rustc" ∷ "cargo"
    ∷ "sail_compiler" ∷ []

-- d.get(k), with None for a missing key
abbrev pub get_field : Value → String → Result Value
get_field (dict fs) k = elim (find k fs) [ none ↦ ok null | some v ↦ ok v ]
get_field _ k = err type_error

-- fresh.get(key) == original[key]; the key is there, since its value is not None
abbrev same_field : Value → String → Value → Result Bool
same_field fresh key v = do w ← get_field fresh key; ok (equal w v)

unfoldable pub check_keys : Value → Value → List String → Result (Unit {0})
check_keys original fresh [] = ok tt
check_keys original fresh (key ∷ rest) = do
  v ← get_field original key
  same ← both (ok (not (is_none v))) (same_field fresh key v)
  require same ("replay environment differs or is unidentified: " <> key)
  check_keys original fresh rest

unfoldable pub check_environment : Value → Value → Result (Unit {0})
check_environment original fresh = check_keys original fresh environment_keys
