-- ===== src/Runtime/TestLog.antt =====
-- `check_test_log` of scripts/runtime_evidence.py: what a log of `cargo test` has to say.
use Prim.Native.Char.{code}
use ckb_vm_sail_verify.Base.{
  String, ℕ, ◌+◌, ◌*◌, ◌-◌, Bool, true, false, ◌&&◌, ◌||◌, not, Option, none, some, List, [], ◌∷◌,
  str_eq, if◌then◌else◌, ◌==◌, leb, ltb, all,
}
use ckb_vm_sail_verify.Base.Result.{Result, ok, require, ◌>>=◌, ◌>>◌}
use ckb_vm_sail_verify.Base.Text.{append, starts_with, occurs, lines, words, spaced, strip}
use ckb_vm_sail_verify.Release.Manifest.{is_one_of}

-- ENGINE_TESTS
abbrev pub engine_tests : List String
engine_tests =
    "every_corpus_case_agrees_step_by_step" ∷ "a_diverging_instruction_stream_is_located"
    ∷ "a_missing_final_event_is_detected" ∷ "the_packet_fixture_still_matches_the_live_emulator"
    ∷ "a_compressed_instruction_is_normalized_on_both_sides"
    ∷ "a_trapping_instruction_diverges_and_is_reported_not_hidden"
    ∷ "a_failing_engine_is_an_error_rather_than_a_pass"
    ∷ "every_mandatory_mutation_is_detected_and_located_on_real_traces"
    ∷ "a_mutation_matrix_over_no_cases_does_not_pass" ∷ "concurrent_sessions_survive_the_port_race"
    ∷ []

-- name.rsplit('::', 1)[-1]
unfoldable pub last_segment : String → String
last_segment String.[] = String.[]
last_segment (String.◌∷◌ c s) =
    let later = last_segment s in
    if occurs "::" s then later else at_start (starts_with "::" (String.◌∷◌ c s)) s
  where
    at_start : Bool → String → String
    at_start true String.[] = String.[]
    at_start true (String.◌∷◌ d t) = t
    at_start false t = String.◌∷◌ c t

-- re.fullmatch(r'test (\S+) \.\.\. ok', line), and the last part of its name
unfoldable pub passed_test : String → Option String
passed_test line = named (words line)
  where
    named : List String → Option String
    named (a ∷ name ∷ b ∷ c ∷ []) =
        if str_eq line (spaced ("test" ∷ name ∷ "..." ∷ "ok" ∷ []))
        then some (last_segment name)
        else none
    named _ = none

unfoldable pub passed_tests : List String → List String
passed_tests [] = []
passed_tests (line ∷ rest) = with_name (passed_test (strip line)) (passed_tests rest)
  where
    with_name : Option String → List String → List String
    with_name none names = names
    with_name (some name) names = name ∷ names

-- [0-9]+; cargo writes no other digits
abbrev pub all_digits : String → Bool
all_digits String.[] = true
all_digits (String.◌∷◌ c s) = leb 48 (code c) && leb (code c) 57 && all_digits s

abbrev pub is_number : String → Bool
is_number s = not (str_eq s "") && all_digits s

unfoldable pub number_from : ℕ → String → ℕ
number_from n String.[] = n
number_from n (String.◌∷◌ c s) = number_from (10 * n + (code c - 48)) s

-- \w, where letters beyond ASCII are not told from other signs
abbrev pub is_word_char : ℕ → Bool
is_word_char c =
    leb 48 c && leb c 57 || leb 65 c && leb c 90 || leb 97 c && leb c 122 || c == 95 || leb 128 c

-- \w+\.
unfoldable pub is_verdict : String → Bool
is_verdict String.[] = false
is_verdict (String.◌∷◌ c s) = is_word_char (code c) && (str_eq s "." || is_verdict s)

-- re.match(r'test result: (\w+)\. (\d+) passed; (\d+) failed; (\d+) ignored;', line): whether nothing
-- failed, and how many passed
unfoldable pub result_of : String → Option (Bool × ℕ)
result_of line = parts (words line)
  where
    parts : List String → Option (Bool × ℕ)
    parts (a ∷ b ∷ verdict ∷ n ∷ c ∷ m ∷ d ∷ k ∷ rest) =
        let text = spaced ("test" ∷ "result:" ∷ verdict ∷ n ∷ "passed;" ∷ m ∷ "failed;" ∷ k ∷ []) in
        if starts_with (append text " ignored;") line
          && is_verdict verdict
          && is_number n
          && is_number m
          && is_number k
        then some (str_eq verdict "ok." && str_eq m "0", number_from 0 n)
        else none
    parts _ = none

-- The number of tests that passed, over all harnesses.
unfoldable pub count_passed : List String → Result ℕ
count_passed [] = ok 0
count_passed (line ∷ rest) = add (result_of (strip line)) (count_passed rest)
  where
    add : Option (Bool × ℕ) → Result ℕ → Result ℕ
    add none later = later
    add (some (fine, n)) later = do
      require fine "Rust test harness reported failures"
      total ← later
      ok (n + total)

unfoldable pub check_test_log : String → Result ℕ
check_test_log body = do
  passed ← count_passed (lines body)
  require (ltb 0 passed && occurs "test result:" body) "no Rust test results recorded"
  require (all (is_one_of (passed_tests (lines body))) engine_tests)
      "mandatory real-engine tests not executed"
  ok passed
