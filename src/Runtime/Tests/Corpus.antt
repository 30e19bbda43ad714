-- ===== src/Runtime/Tests/Corpus.antt =====
-- A corpus for the tests: cases of one instruction, and their matrix of mutations.
use ckb_vm_sail_verify.Base.{String, ℕ, ◌*◌, true, false, List, [], ◌∷◌, pos, length}
use ckb_vm_sail_verify.Base.Text.{append}
use ckb_vm_sail_verify.Base.Json.{Value, null, bool, int, str, list, dict, nil, end, items, fields}
use ckb_vm_sail_verify.Minimize.Artifact.{hex_words, reset_state}
use ckb_vm_sail_verify.Runtime.Case.{complete, full_comparison}

-- addi x1, x0, 1
abbrev pub addi_word : ℕ
addi_word = 0x100093

abbrev write_one : Value
write_one = dict (fields (("index", int (pos 1)) ∷ ("value", int (pos 1)) ∷ []))

abbrev one_event : ℕ → Value
one_event word = dict (
    fields (
      ("order", int (pos 0))
      ∷ ("instruction", int (pos word))
      ∷ ("pc_before", int (pos 0x80000000))
      ∷ ("pc_after", int (pos 0x80000004))
      ∷ ("register_writes", list (items (write_one ∷ [])))
      ∷ ("memory", list nil)
      ∷ ("trap", bool false)
      ∷ ("halt", bool false)
      ∷ []))

abbrev pub trace_of : ℕ → Value
trace_of word =
    dict (fields (("events", list (items (one_event word ∷ []))) ∷ ("end", complete) ∷ []))

-- The name of a case, its family and its word.
pub record Sample : Type 0 where
  pub id : String
  pub family : String
  pub word : ℕ

abbrev case_value : Sample → Value
case_value s = dict (
    fields (
      ("id", str s.id)
      ∷ ("description", str "one instruction")
      ∷ ("family", str s.family)
      ∷ ("focus_step", int (pos 0))
      ∷ ("instructions", list (items (int (pos s.word) ∷ [])))
      ∷ []))

abbrev packet : Value
packet =
    str
      "00000000000000000000000000000000000000000000000000000000000000000000000000000000000000000000000000000000000000000000000000000000000000000000000000000000000000000000000000000000"

abbrev pub empty_environment : Value
empty_environment = dict end

abbrev pub artifact_of : Value → Sample → Value
artifact_of environment s = dict (
    fields (
      ("schema_version", int (pos 3))
      ∷ ("case", case_value s)
      ∷ ("instructions_hex", hex_words (s.word ∷ []))
      ∷ ("initial_state", reset_state)
      ∷ ("environment", environment)
      ∷ ("passed", bool true)
      ∷ ("classification", str "match")
      ∷ ("error", null)
      ∷ ("comparison", full_comparison 1)
      ∷ ("ckb_trace", trace_of s.word)
      ∷ ("sail_trace", trace_of s.word)
      ∷ ("sail_raw_packets", list (items (packet ∷ packet ∷ [])))
      ∷ ("replay", dict (fields (("from_artifact", str "ckb-vm-sail-diff --replay") ∷ [])))
      ∷ []))

abbrev pub row_of : Sample → Value
row_of s = dict (
    fields (
      ("id", str s.id)
      ∷ ("description", str "one instruction")
      ∷ ("family", str s.family)
      ∷ ("focus_step", int (pos 0))
      ∷ ("instructions", int (pos 1))
      ∷ ("artifact", str (append "original/" (append s.id ".json")))
      ∷ ("passed", bool true)
      ∷ ("classification", str "match")
      ∷ ("error", null)
      ∷ ("comparison", full_comparison 1)
      ∷ []))

abbrev report_row : String → String → String → Value → Value
report_row id kind name step = dict (
    fields (
      ("case_id", str id)
      ∷ ("mutation", str kind)
      ∷ ("expected_field", str name)
      ∷ ("applied", bool true)
      ∷ ("detected", bool true)
      ∷ ("passed", bool true)
      ∷ ("skipped_because", null)
      ∷ ("located_field", str name)
      ∷ ("located_step", step)
      ∷ []))

abbrev report_rows : List Sample → List Value
report_rows [] = []
report_rows (s ∷ rest) =
    report_row s.id "pc_after" "pc_after" (int (pos 0))
    ∷ report_row s.id "register_index" "register_writes" (int (pos 0))
    ∷ report_row s.id "register_value" "register_writes" (int (pos 0))
    ∷ report_row s.id "trap" "trap" (int (pos 0))
    ∷ report_row s.id "trace_length" "trace_length" (int (pos 0))
    ∷ report_row s.id "termination" "termination" null
    ∷ report_rows rest

abbrev coverage_row : String → ℕ → String → String → Value
coverage_row id n kind name = dict (
    fields (
      ("mutation", str kind)
      ∷ ("expected_field", str name)
      ∷ ("applied", int (pos n))
      ∷ ("located", int (pos n))
      ∷ ("example_case", str id)
      ∷ []))

abbrev coverage_rows : String → ℕ → List Value
coverage_rows id n =
    coverage_row id n "pc_after" "pc_after"
    ∷ coverage_row id n "register_index" "register_writes"
    ∷ coverage_row id n "register_value" "register_writes"
    ∷ coverage_row id n "trap" "trap"
    ∷ coverage_row id n "trace_length" "trace_length"
    ∷ coverage_row id n "termination" "termination"
    ∷ []

abbrev pub summary_of : String → List Sample → Value
summary_of example samples = dict (
    fields (
      ("cases", int (pos (length samples)))
      ∷ ("passed", bool true)
      ∷ ("baseline_failures", list nil)
      ∷ ("undetected", list nil)
      ∷ ("mislocated", list nil)
      ∷ ("reports", list (items (report_rows samples)))
      ∷ ("applied", int (pos (6 * length samples)))
      ∷ ("skipped", int (pos 0))
      ∷ ("coverage", list (items (coverage_rows example (length samples))))
      ∷ []))
