-- ===== src/Minimize/Artifact.antt =====
-- `program` and `signature` of scripts/minimize_mismatch.py: what a replay artifact must look like,
-- and which difference between the engines it recorded.
pub mod Program
pub mod Location
use ckb_vm_sail_verify.Base.{
  ℕ, zero, suc, ◌+◌, ◌^◌, Bool, true, false, ◌&&◌, not, Option, none, some, List, [], ◌∷◌, map,
  length, get_elem?, ltb, leb, ◌==◌, str_eq, if◌then◌else◌, String, pos,
}
use ckb_vm_sail_verify.Base.Result.{
  Result, ok, err, runtime_error, type_error, key_error, require, both, ◌>>=◌, ◌>>◌,
}
use ckb_vm_sail_verify.Base.Json.{
  Value, null, bool, int, str, list, dict, item, elements, items, fields, equal, is_none, is_true,
  is_false, is_dict, truthy, count_fields,
}
use ckb_vm_sail_verify.Minimize.Decimal.{hex_word}

-- type(w) is int and 0 <= w < 2**32
unfoldable pub word_of : Value → Option ℕ
word_of (int (pos n)) = if ltb n (2 ^ 32) then some n else none
word_of _ = none

abbrev pub add_word : Option ℕ → Option (List ℕ) → Option (List ℕ)
add_word (some w) (some ws) = some (w ∷ ws)
add_word _ _ = none

unfoldable pub words_of : List Value → Option (List ℕ)
unfolding word_of
words_of [] = some []
words_of (v ∷ rest) = add_word (word_of v) (words_of rest)

abbrev or_invalid : Option (List ℕ) → Result (List ℕ)
or_invalid none = err (runtime_error "invalid instruction sequence")
or_invalid (some ws) = ok ws

unfoldable pub instruction_words : Value → Result (List ℕ)
unfolding words_of
instruction_words (list xs) =
    let values = elements xs in
    if ltb 0 (length values) && leb (length values) 256
    then or_invalid (words_of values)
    else or_invalid none
instruction_words _ = or_invalid none

abbrev pub hex_words : List ℕ → Value
hex_words ws = list (items (map (λ w. str (hex_word w)) ws))

-- {'pc': 0x80000000, 'integer_registers': 'x0..x31 = 0'}
abbrev pub reset_state : Value
reset_state =
    dict (fields (("pc", int (pos 0x80000000)) ∷ ("integer_registers", str "x0..x31 = 0") ∷ []))

unfoldable pub program : Value → Result (List ℕ)
program artifact = do
  version ← item artifact "schema_version"
  require (equal version (int (pos 3))) "only source-baseline-aware schema 3 is supported"
  case ← item artifact "case"
  instructions ← item case "instructions"
  words ← instruction_words instructions
  hex ← item artifact "instructions_hex"
  require (equal hex (hex_words words)) "hex/case instruction mismatch"
  initial ← item artifact "initial_state"
  require (equal initial reset_state) "replay CLI does not implement arbitrary initial states"
  ok words

-- {'field': field, 'offending_words': None or a list of two}
pub record Signature : Type 0 where
  pub field : String
  pub offending_words : Option (Value × Value)

-- observed is None
abbrev pub is_passed : Option Signature → Bool
is_passed none = true
is_passed (some _) = false

-- The `==` of two signatures, or of None with one.
unfoldable pub words_match : Option (Value × Value) → Option (Value × Value) → Bool
unfolding equal
words_match none none = true
words_match (some (a, b)) (some (c, d)) = equal a c && equal b d
words_match _ _ = false

unfoldable pub matches : Option Signature → Option Signature → Bool
unfolding words_match
matches none none = true
matches (some a) (some b) =
    str_eq a.field b.field && words_match a.offending_words b.offending_words
matches _ _ = false

-- The number of characters.
abbrev pub text_length : String → ℕ
text_length String.[] = 0
text_length (String.◌∷◌ c s) = suc (text_length s)

-- len(rows), for what `json.loads` can return
unfoldable pub length_of : Value → Result ℕ
length_of (list xs) = ok (length (elements xs))
length_of (dict fs) = ok (count_fields fs)
length_of (str s) = ok (text_length s)
length_of _ = err type_error

-- rows[i], which is then subscripted: an element of a text is a text and refuses that, and the keys
-- of a dict are no numbers
unfoldable pub row : Value → ℕ → Result Value
row (list xs) i = elim (get_elem? (elements xs) i) [ none ↦ err type_error | some v ↦ ok v ]
row (dict fs) i = err (key_error "")
row _ i = err type_error

-- for key in ['ckb_trace', 'sail_trace']: require(...)
unfoldable pub require_trace : Value → String → Result (Unit {0})
require_trace artifact key = do
  trace ← item artifact key
  present ← both (ok (is_dict trace)) (do events ← item trace "events"; ok (truthy events))
  require present "missing/empty engine trace"

unfoldable pub events_of : Value → String → Result Value
events_of artifact key = do trace ← item artifact key; item trace "events"

-- isinstance(field, str) and field and field != 'empty_trace'
unfoldable pub field_name : Value → Result String
field_name (str s) = do
  require (not (str_eq s "") && not (str_eq s "empty_trace")) "invalid mismatch field"
  ok s
field_name _ = err (runtime_error "invalid mismatch field")

abbrev pub is_at : Value → ℕ → Bool
is_at (int (pos n)) m = n == m
is_at _ m = false

abbrev pub is_int : Value → Bool
is_int (int _) = true
is_int _ = false

abbrev min_of : ℕ → ℕ → ℕ
min_of a b = if leb a b then a else b

-- type(step) is int and step == min(map(len, events)) and len(events[0]) != len(events[1])
unfoldable pub length_boundary : Value → Value → Value → Result Bool
length_boundary step left right =
    both (ok (is_int step))
      (do l ← length_of left; r ← length_of right; ok (is_at step (min_of l r) && not (l == r)))

-- type(step) is int and step >= 0
unfoldable pub step_index : Value → Result ℕ
step_index (int (pos n)) = ok n
step_index _ = err (runtime_error "invalid mismatch step")

-- The difference at one step, with the instruction words that both engines report there.
unfoldable pub step_signature : String → Value → Value → Value → Result Signature
step_signature name step left right = do
  n ← step_index step
  inside ← both (do l ← length_of left; ok (ltb n l)) (do r ← length_of right; ok (ltb n r))
  require inside "mismatch step outside actual traces"
  a ← row left n
  word_a ← item a "instruction"
  b ← row right n
  word_b ← item b "instruction"
  ok (record { field = name; offending_words = some (word_a, word_b) })

unfoldable pub located : String → Value → Value → Value → Result Signature
located name step left right =
    if str_eq name "trace_length"
    then (do
      boundary ← length_boundary step left right
      require boundary "invalid trace-length boundary"
      ok (record { field = name; offending_words = none }))
    else if is_none step
    then (do
      require (str_eq name "termination") "event mismatch has no step"
      ok (record { field = name; offending_words = none }))
    else step_signature name step left right

unfoldable pub mismatch : Value → Value → Value → Result Signature
mismatch artifact passed difference = do
  recorded ← both (ok (is_false passed)) (do
    class ← item artifact "classification"
    ok (equal class (str "unclassified_mismatch") && is_dict difference))
  require recorded "not a recorded semantic mismatch"
  field ← item difference "field"
  name ← field_name field
  step ← item difference "step"
  left ← events_of artifact "ckb_trace"
  right ← events_of artifact "sail_trace"
  located name step left right

-- if artifact['passed'] is True: require(difference is None and ...); return None
unfoldable pub passing : Value → Value → Result (Option Signature)
passing artifact difference = do
  consistent ←
      both (ok (is_none difference))
        (do class ← item artifact "classification"; ok (equal class (str "match")))
  require consistent "inconsistent passing evidence"
  ok none

abbrev verdict : Value → Value → Value → Result (Option Signature)
verdict artifact passed difference =
    if is_true passed
    then passing artifact difference
    else (do found ← mismatch artifact passed difference; ok (some found))

-- None for a passing artifact, the signature of its difference for a failing one
unfoldable pub signature : Value → Result (Option Signature)
signature artifact = do
  error ← item artifact "error"
  require (is_none error) "runner error is not a semantic outcome"
  require_trace artifact "ckb_trace"
  require_trace artifact "sail_trace"
  comparison ← item artifact "comparison"
  require (is_dict comparison) "missing comparison"
  difference ← item comparison "mismatch"
  passed ← item artifact "passed"
  verdict artifact passed difference
