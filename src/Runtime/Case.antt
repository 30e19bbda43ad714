-- ===== src/Runtime/Case.antt =====
-- `check_case` and `check_replay` of scripts/runtime_evidence.py: one case of the corpus with its two
-- traces.
pub mod Run
pub mod Accepted
use Prim.Native.Nat.{bit_and}
use ckb_vm_sail_verify.Base.{
  String, ℕ, suc, ◌^◌, Bool, true, false, ◌&&◌, not, Option, none, some, List, [], ◌∷◌, str_eq,
  if◌then◌else◌, ◌==◌, ltb, leb, pos, length, get_or, all,
}
use ckb_vm_sail_verify.Base.Result.{
  Result, ok, err, runtime_error, type_error, require, ◌>>=◌, ◌>>◌,
}
use ckb_vm_sail_verify.Base.Json.{
  Value, null, int, str, list, dict, Items, nil, items, elements, fields, item, equal, same,
  is_none,
}
use ckb_vm_sail_verify.Release.Manifest.{is_hex_text}
use ckb_vm_sail_verify.Release.Manifest
use ckb_vm_sail_verify.Minimize.Artifact.{words_of, hex_words, reset_state}
use ckb_vm_sail_verify.Audit.Checks.{
  expect, reach, reads, reads_true, reads_false, reads_number, rows_of,
}
use ckb_vm_sail_verify.Runtime.Trace.{observed, first_difference}

-- integer(value, 0, high), which is then read as a number
unfoldable pub bounded : Value → ℕ → Result ℕ
bounded (int (pos n)) high = do require (leb n high) "out of range"; ok n
bounded _ high = err (runtime_error "out of range")

-- isinstance(words, list) and words and all(integer(w, 0, 2 ** 32 - 1) for w in words)
unfoldable pub program_words : Value → Result (List ℕ)
program_words (list vs) = nonempty (words_of (elements vs))
  where
    nonempty : Option (List ℕ) → Result (List ℕ)
    nonempty (some (w ∷ ws)) = ok (w ∷ ws)
    nonempty _ = err (runtime_error "invalid program words")
program_words _ = err (runtime_error "invalid program words")

-- FAMILIES[family], the mask and the value of an opcode
unfoldable pub opcode_of : Value → Result (ℕ × ℕ)
opcode_of (str s) =
    if str_eq s "ADD"
    then ok (0xfe00707f, 0x33)
    else if str_eq s "ADDI"
    then ok (0x707f, 0x13)
    else if str_eq s "BEQ"
    then ok (0x707f, 0x63)
    else err (runtime_error "unapproved corpus family")
opcode_of _ = err (runtime_error "unapproved corpus family")

-- value[key]...[key] is None
unfoldable pub reads_none : Value → List String → Result Bool
reads_none v ks = do w ← reach v ks; ok (is_none w)

-- same(value[key]...[key], other)
unfoldable pub reads_exactly : Value → List String → Value → Result Bool
reads_exactly v ks other = do w ← reach v ks; ok (same w other)

-- same(value[key], other[key])
unfoldable pub keep : Value → Value → List String → Result (Unit {0})
keep v other [] = ok tt
keep v other (k ∷ ks) = do
  a ← item v k
  b ← item other k
  require (same a b) "case/report mismatch"
  keep v other ks

-- {'compared_steps': n, 'mismatch': None}
abbrev pub full_comparison : ℕ → Value
full_comparison n = dict (fields (("compared_steps", int (pos n)) ∷ ("mismatch", null) ∷ []))

-- {'kind': 'injection_complete'}
abbrev pub complete : Value
complete = dict (fields (("kind", str "injection_complete") ∷ []))

-- The report and the artifact agree that nothing differed.
unfoldable pub check_evidence : Value → ℕ → Result (Unit {0})
check_evidence evidence count = do
  expect
      (reads_true evidence ("passed" ∷ [])
        ∷ reads evidence ("classification" ∷ []) (str "match")
        ∷ reads_none evidence ("error" ∷ [])
        ∷ [])
      "case is not a clean passing baseline"
  expect (reads_exactly evidence ("comparison" ∷ []) (full_comparison count) ∷ [])
      "comparison omitted events or reports mismatch"

-- The registers that an event writes are numbered upwards: `low` is one more than the last.
unfoldable pub check_writes : ℕ → List Value → Result (Unit {0})
check_writes low [] = ok tt
check_writes low (write ∷ rest) = do
  Manifest.fields write ("index" ∷ "value" ∷ []) "invalid register write"
  given ← item write "index"
  index ← bounded given 31
  require (leb low index) "unnormalized register writes"
  value ← item write "value"
  _ ← bounded value 0xffffffffffffffff
  check_writes (suc index) rest

-- One event of a trace: it is the `i`th, of this word, at this address. What it returns is the next
-- address.
unfoldable pub check_event : ℕ → ℕ → ℕ → Value → Result ℕ
check_event i word pc event = do
  Manifest.fields event observed "unknown/missing observation field"
  expect (reads_number event ("order" ∷ []) i ∷ reads_number event ("instruction" ∷ []) word ∷ [])
      "trace order/instruction not the input stream"
  expect (reads_number event ("pc_before" ∷ []) pc ∷ []) "invalid PC sequence"
  _ ← bounded (int (pos pc)) 0xffffffffffffffff
  given ← item event "pc_after"
  next ← bounded given 0xffffffffffffffff
  expect
      (reads_false event ("trap" ∷ [])
        ∷ reads_false event ("halt" ∷ [])
        ∷ reads event ("memory" ∷ []) (list nil)
        ∷ [])
      "unexpected trap/halt/memory observation in corpus"
  writes ← item event "register_writes"
  rows ← rows_of writes
  check_writes 1 rows
  ok next

-- for i, event in enumerate(events)
unfoldable pub check_events : ℕ → List ℕ → ℕ → List Value → Result (Unit {0})
check_events i [] pc [] = ok tt
check_events i (word ∷ words) pc (event ∷ events) = do
  next ← check_event i word pc event
  check_events (suc i) words next events
check_events i _ pc _ = err (runtime_error "trace length/termination mismatch")

unfoldable pub check_trace : Value → List ℕ → Result (Unit {0})
check_trace trace words = do
  Manifest.fields trace ("events" ∷ "end" ∷ []) "invalid trace schema"
  events ← item trace "events"
  rows ← rows_of events
  require (length rows == length words) "trace length/termination mismatch"
  expect (reads trace ("end" ∷ []) complete ∷ []) "trace length/termination mismatch"
  check_events 0 words 0x80000000 rows

-- isinstance(p, str) and re.fullmatch('[0-9a-f]{176}', p)
abbrev pub is_packet : Value → Bool
is_packet (str s) = is_hex_text 176 s
is_packet _ = false

unfoldable pub check_packets : Value → ℕ → Result (Unit {0})
check_packets packets count = do
  rows ← rows_of packets
  require (length rows == suc count && all is_packet rows) "missing/invalid raw RVFI-DII packets"

abbrev pub is_command : Value → Bool
is_command (str s) = not (str_eq s "")
is_command _ = false

-- first_difference(...) == (None, None)
unfoldable pub is_nothing : Option String × Option ℕ → Bool
is_nothing (none, none) = true
is_nothing _ = false

unfoldable pub check_agreement : Value → Value → Result (Unit {0})
check_agreement left right = do
  found ← first_difference left right
  require (is_nothing found) "actual normalized engine traces differ"

-- The program of the case, with the opcode of its family at its focus.
unfoldable pub check_program : Value → Value → Result (List ℕ)
check_program artifact case = do
  given ← item case "instructions"
  words ← program_words given
  step ← item case "focus_step"
  focus ← bounded step (length words)
  require (ltb focus (length words)) "invalid focus instruction"
  expect (reads artifact ("instructions_hex" ∷ []) (hex_words words) ∷ []) "program/hex mismatch"
  family ← item case "family"
  (mask, opcode) ← opcode_of family
  require (bit_and (get_or words focus 0) mask == opcode)
      "focus opcode does not match declared family"
  ok words

unfoldable pub check_case : Value → Value → Value → Result (Unit {0})
check_case row artifact environment = do
  expect (reads_number artifact ("schema_version" ∷ []) 3 ∷ []) "old/unknown case schema"
  case ← item artifact "case"
  words ← check_program artifact case
  expect (reads artifact ("initial_state" ∷ []) reset_state ∷ []) "unsupported initial state"
  expect (reads_exactly artifact ("environment" ∷ []) environment ∷ []) "mixed runtime environments"
  keep row case ("id" ∷ "description" ∷ "family" ∷ "focus_step" ∷ [])
  expect (reads_number row ("instructions" ∷ []) (length words) ∷ []) "instruction count mismatch"
  check_evidence row (length words)
  check_evidence artifact (length words)
  ckb ← item artifact "ckb_trace"
  check_trace ckb words
  sail ← item artifact "sail_trace"
  check_trace sail words
  check_agreement ckb sail
  packets ← item artifact "sail_raw_packets"
  check_packets packets (length words)
  command ← reach artifact ("replay" ∷ "from_artifact" ∷ [])
  require (is_command command) "missing replay command"

abbrev pub replayed_keys : List String
replayed_keys =
    "case" ∷ "instructions_hex" ∷ "initial_state" ∷ "ckb_trace" ∷ "sail_trace" ∷ "sail_raw_packets"
    ∷ []

-- {'total': 1, 'failures': 0, 'mutations_passed': None, 'passed': True}
abbrev pub replay_summary : Value
replay_summary = dict (
    fields (
      ("total", int (pos 1))
      ∷ ("failures", int (pos 0))
      ∷ ("mutations_passed", null)
      ∷ ("passed", Value.bool true)
      ∷ []))

unfoldable pub only_result : Value → Result Value
only_result report = do given ← item report "results"; rows ← rows_of given; only rows
  where
    only : List Value → Result Value
    only (row ∷ []) = ok row
    only _ = err (runtime_error "replay case count")

-- A replay of a case saw what the recorded run saw.
unfoldable pub check_replay : Value → Value → Value → Value → Result (Unit {0})
check_replay report artifact original environment = do
  expect
      (reads_number report ("schema_version" ∷ []) 3
        ∷ reads report ("mode" ∷ []) (str "replay")
        ∷ reads report ("terminal_policy" ∷ []) (str "exact")
        ∷ reads_none report ("mutations" ∷ [])
        ∷ reads_none report ("seed" ∷ [])
        ∷ [])
      "invalid replay envelope"
  expect
      (reads_exactly report ("environment" ∷ []) environment
        ∷ reads_exactly report ("summary" ∷ []) replay_summary
        ∷ [])
      "replay did not pass"
  row ← only_result report
  check_case row artifact environment
  keep artifact original replayed_keys
