-- ===== src/Runtime/Trace.antt =====
-- `first_difference` and `mutated` of scripts/runtime_evidence.py, over the JSON values of two traces.
pub mod Agreeing
pub mod Changed
use Prim.Native.Nat.{bit_xor, min}
use ckb_vm_sail_verify.Base.{
  String, ℕ, zero, suc, ◌+◌, ◌%◌, ◌^◌, Bool, true, false, not, Option, none, some, List, [], ◌∷◌,
  str_eq, if◌then◌else◌, ◌==◌, leb, pos, length, get_elem?,
}
use ckb_vm_sail_verify.Base.Result.{
  Result, ok, err, runtime_error, key_error, type_error, ◌>>=◌, ◌>>◌,
}
use ckb_vm_sail_verify.Base.Json.{
  Value, int, str, bool, list, dict, items, elements, fields, item, equal, truthy,
}
use ckb_vm_sail_verify.Release.Manifest.{is_one_of}
use ckb_vm_sail_verify.Audit.Checks.{fields_of, rows_of, set_field}

-- FIELDS
abbrev pub observed : List String
observed =
    "order" ∷ "instruction" ∷ "pc_before" ∷ "pc_after" ∷ "register_writes" ∷ "memory" ∷ "trap"
    ∷ "halt" ∷ []

-- for field in FIELDS: if a[field] != b[field]: return field
unfoldable pub differing_field : List String → Value → Value → Result (Option String)
differing_field [] a b = ok none
differing_field (k ∷ ks) a b = do
  x ← item a k
  y ← item b k
  elim (equal x y) [ true ↦ differing_field ks a b | false ↦ ok (some k) ]

-- The first pair of events that differ, numbered from `i` on.
unfoldable pub differing_event : ℕ → List Value → List Value → Result (Option (String × ℕ))
differing_event i (a ∷ as') (b ∷ bs) = do
  found ← differing_field observed a b
  elim found [ none ↦ differing_event (suc i) as' bs | some k ↦ ok (some (k, i)) ]
differing_event i _ _ = ok none

unfoldable pub events_in : Value → Result (List Value)
events_in trace = do events ← item trace "events"; rows_of events

unfoldable pub last_difference : List Value → Bool → Option String × Option ℕ
last_difference events false = (some "termination", none)
last_difference [] true = (some "empty_trace", none)
last_difference (e ∷ es) true = (none, none)

unfoldable pub differing_end : Value → Value → List Value → Result (Option String × Option ℕ)
differing_end left right events = do
  a ← item left "end"
  b ← item right "end"
  ok (last_difference events (equal a b))

-- What is compared after the events: the numbers of events, then how the traces ended.
unfoldable pub differing_rest :
    Value → Value → List Value → List Value → Result (Option String × Option ℕ)
differing_rest left right ls rs =
    if length ls == length rs
    then differing_end left right ls
    else ok (some "trace_length", some (min (length ls) (length rs)))

-- Where two traces differ first: the name of what differs, and the number of the event.
unfoldable pub first_difference : Value → Value → Result (Option String × Option ℕ)
first_difference left right = do
  ls ← events_in left
  rs ← events_in right
  found ← differing_event 0 ls rs
  elim found [ none ↦ differing_rest left right ls rs | some (k, i) ↦ ok (some k, some i) ]

-- value[key] = other, in a dict
unfoldable pub assign : String → Value → Value → Result Value
assign k w v = do fs ← fields_of v; ok (dict (set_field k w fs))

-- rows[i]
unfoldable pub elem : ℕ → List Value → Result Value
elem i rows = elim (get_elem? rows i) [ none ↦ err (key_error "") | some v ↦ ok v ]

abbrev pub set_elem : ℕ → Value → List Value → List Value
set_elem i w [] = []
set_elem zero w (v ∷ vs) = w ∷ vs
set_elem (suc i) w (v ∷ vs) = v ∷ set_elem i w vs

-- rows.pop()
unfoldable pub pop : List Value → Result (List Value)
pop [] = err (key_error "")
pop (v ∷ []) = ok []
pop (v ∷ w ∷ rest) = do kept ← pop (w ∷ rest); ok (v ∷ kept)

unfoldable pub has_writes : Value → Result Bool
has_writes event = do writes ← item event "register_writes"; ok (truthy writes)

-- next((i for i, row in enumerate(events) if row['register_writes']), None)
unfoldable pub next_written : ℕ → List Value → Result (Option ℕ)
next_written i [] = ok none
next_written i (event ∷ rest) = do
  written ← has_writes event
  elim written [ true ↦ ok (some i) | false ↦ next_written (suc i) rest ]

unfoldable pub written_index : ℕ → List Value → Result (Option ℕ)
written_index focus events = do
  event ← elem focus events
  written ← has_writes event
  elim written [ true ↦ ok (some focus) | false ↦ next_written 0 events ]

-- The numbers of a trace are natural numbers, as `check_case` tests before.
unfoldable pub as_number : Value → Result ℕ
as_number (int (pos n)) = ok n
as_number _ = err type_error

abbrev pub next_register : ℕ → ℕ
next_register n = if leb 31 n then 1 else n + 1

unfoldable pub mutated_write : String → Value → Result Value
mutated_write kind write = elim (str_eq kind "register_index") [
  | true ↦ do
    w ← item write "index"
    n ← as_number w
    assign "index" (int (pos (next_register n))) write
  | false ↦ do
    w ← item write "value"
    n ← as_number w
    assign "value" (int (pos (bit_xor n 1))) write
]

-- events[i]['register_writes'][0], changed
unfoldable pub mutated_writes : String → Value → Result Value
mutated_writes kind event = do
  given ← item event "register_writes"
  rows ← rows_of given
  first ← elem 0 rows
  write ← mutated_write kind first
  assign "register_writes" (list (items (set_elem 0 write rows))) event

unfoldable pub mutated_event : String → Value → Result Value
mutated_event kind event = elim (str_eq kind "pc_after") [
  | true ↦ do
    w ← item event "pc_after"
    n ← as_number w
    assign "pc_after" (int (pos ((n + 2) % 2 ^ 64))) event
  | false ↦ do w ← item event "trap"; assign "trap" (bool (not (truthy w))) event
]

-- trace['events'] = events, in a copy
unfoldable pub with_events : Value → List Value → Result (Option Value)
with_events trace events = do v ← assign "events" (list (items events)) trace; ok (some v)

-- events[i] = change(events[i])
unfoldable pub changed_at : (Value → Result Value) → ℕ → List Value → Result (List Value)
changed_at change i events = do
  event ← elem i events
  new ← change event
  ok (set_elem i new events)

unfoldable pub with_write : String → Value → List Value → Option ℕ → Result (Option Value)
with_write kind trace events none = ok none
with_write kind trace events (some i) = do
  changed ← changed_at (mutated_writes kind) i events
  with_events trace changed

-- A copy of a trace with one observation changed, or None where there is none of this kind.
unfoldable pub mutated : Value → String → ℕ → Result (Option Value)
mutated trace kind focus = do events ← events_in trace; by_kind events
  where
    written : List Value → Result (Option Value)
    written events = do i ← written_index focus events; with_write kind trace events i

    observed_at : List Value → Result (Option Value)
    observed_at events = do
      changed ← changed_at (mutated_event kind) focus events
      with_events trace changed

    shortened : List Value → Result (Option Value)
    shortened events = do kept ← pop events; with_events trace kept

    stopped : Result (Option Value)
    stopped = do
      v ← assign "end" (dict (fields (("kind", str "step_limit") ∷ []))) trace
      ok (some v)

    by_kind : List Value → Result (Option Value)
    by_kind events =
        if is_one_of ("register_index" ∷ "register_value" ∷ []) kind
        then written events
        else if is_one_of ("pc_after" ∷ "trap" ∷ []) kind
        then observed_at events
        else if str_eq kind "trace_length"
        then shortened events
        else if str_eq kind "termination"
        then stopped
        else err (runtime_error "unknown mutation")
