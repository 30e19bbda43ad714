-- ===== src/Runtime/Mutations.antt =====
-- `check_mutations` of scripts/runtime_evidence.py: the matrix of all cases and mutations, each applied
-- and located again.
pub mod Located
pub mod Matrix
use ckb_vm_sail_verify.Base.{
  String, ℕ, zero, suc, ◌+◌, Bool, true, false, ◌&&◌, ◌||◌, not, Option, none, some, List, [], ◌∷◌,
  ◌++◌, map, str_eq, if◌then◌else◌, ◌==◌, ltb, pos, length, all,
}
use ckb_vm_sail_verify.Base.Result.{
  Result, ok, err, runtime_error, type_error, key_error, require, ◌>>=◌, ◌>>◌,
}
use ckb_vm_sail_verify.Base.Json.{
  Value, null, int, str, list, dict, nil, Fields, end, field, item, truthy, is_str,
}
use ckb_vm_sail_verify.Release.Manifest.{is_one_of}
use ckb_vm_sail_verify.Audit.Checks.{
  expect, reach, reads, reads_true, reads_false, reads_number, rows_of, within,
}
use ckb_vm_sail_verify.Runtime.Trace.{first_difference, mutated, as_number}
use ckb_vm_sail_verify.Runtime.Case.{reads_none, reads_exactly}

-- the keys of MUTATIONS
abbrev pub mutation_kinds : List String
mutation_kinds =
    "pc_after" ∷ "register_index" ∷ "register_value" ∷ "trap" ∷ "trace_length" ∷ "termination" ∷ []

-- MUTATIONS[kind]
unfoldable pub expected_field : String → Result String
expected_field kind =
    if is_one_of ("register_index" ∷ "register_value" ∷ []) kind
    then ok "register_writes"
    else if is_one_of mutation_kinds kind
    then ok kind
    else err (key_error kind)

unfoldable pub text_at : Value → String → Result String
text_at v k = do w ← item v k; text_of w
  where
    text_of : Value → Result String
    text_of (str s) = ok s
    text_of _ = err type_error

-- (r['case_id'], r['mutation']), which no other value than a pair of texts can be
unfoldable pub key_of : Value → Result (String × String)
key_of row = do name ← text_at row "case_id"; kind ← text_at row "mutation"; ok (name, kind)

unfoldable pub keys_of : List Value → Result (List (String × String))
keys_of [] = ok []
keys_of (row ∷ rows) = do key ← key_of row; keys ← keys_of rows; ok (key ∷ keys)

abbrev pub pairs_with : String → List String → List (String × String)
pairs_with name [] = []
pairs_with name (kind ∷ kinds) = (name, kind) ∷ pairs_with name kinds

-- {(name, kind) for name in cases for kind in MUTATIONS}
abbrev pub matrix : List (String × Value) → List (String × String)
matrix [] = []
matrix ((name, artifact) ∷ cases) = pairs_with name mutation_kinds ++ matrix cases

abbrev pub has_key : List (String × String) → String × String → Bool
has_key [] key = false
has_key ((name, kind) ∷ keys) key = str_eq name key.0 && str_eq kind key.1 || has_key keys key

-- len(keys) == len(expected) and set(keys) == expected
abbrev pub is_matrix : List (String × String) → List (String × String) → Bool
is_matrix keys expected =
    length keys == length expected && all (has_key expected) keys && all (has_key keys) expected

-- cases[name]
unfoldable pub case_named : String → List (String × Value) → Result Value
case_named name [] = err (key_error name)
case_named name ((n, artifact) ∷ cases) =
    if str_eq n name then ok artifact else case_named name cases

-- `counts` and `located`: how many were skipped, and the kind and the case of each that was applied.
pub record Tally : Type 0 where
  pub skipped : ℕ
  pub located : List (String × String)

-- counts[kind]
abbrev pub count_of : String → List (String × String) → ℕ
count_of kind [] = 0
count_of kind ((k, name) ∷ rest) = let n = count_of kind rest in if str_eq k kind then suc n else n

-- name in located[kind]
abbrev pub has_located : List (String × String) → String → Value → Bool
has_located located kind (str name) = has_key located (kind, name)
has_located located kind _ = false

abbrev pub is_field : Option String → String → Bool
is_field none k = false
is_field (some j) k = str_eq j k

abbrev pub step_value : Option ℕ → Value
step_value none = null
step_value (some n) = int (pos n)

abbrev pub is_reason : Value → Bool
is_reason v = is_str v && truthy v

-- isinstance(row['skipped_because'], str) and row['skipped_because']
unfoldable pub reads_reason : Value → Result Bool
reads_reason row = do w ← item row "skipped_because"; ok (is_reason w)

unfoldable pub check_skipped : Value → Result (Unit {0})
check_skipped row =
    expect
      (reads_false row ("applied" ∷ [])
        ∷ reads_false row ("detected" ∷ [])
        ∷ reads_false row ("passed" ∷ [])
        ∷ reads_none row ("located_field" ∷ [])
        ∷ reads_none row ("located_step" ∷ [])
        ∷ reads_reason row
        ∷ [])
      "invalid skipped mutation evidence"

unfoldable pub check_applied : Value → String → Option ℕ → Result (Unit {0})
check_applied row expected step =
    expect
      (reads_true row ("applied" ∷ [])
        ∷ reads_true row ("detected" ∷ [])
        ∷ reads_true row ("passed" ∷ [])
        ∷ reads_none row ("skipped_because" ∷ [])
        ∷ reads row ("located_field" ∷ []) (str expected)
        ∷ reads_exactly row ("located_step" ∷ []) (step_value step)
        ∷ [])
      "mutation result disagrees with actual trace mutation"

-- The mutated trace against the trace of Sail, or a row that says why there is none.
unfoldable pub check_outcome : Value → Value → String → Option Value → Result Bool
check_outcome row artifact expected none = do check_skipped row; ok false
check_outcome row artifact expected (some result) = do
  sail ← item artifact "sail_trace"
  (k, i) ← first_difference result sail
  require (is_field k expected) "recomputed mutation not localized"
  check_applied row expected i
  ok true

-- What it returns is whether there was anything to change.
unfoldable pub check_located : Value → Value → String → String → Result Bool
check_located row artifact kind expected = do
  trace ← item artifact "ckb_trace"
  step ← reach artifact ("case" ∷ "focus_step" ∷ [])
  focus ← as_number step
  changed ← mutated trace kind focus
  check_outcome row artifact expected changed

abbrev pub tallied : Bool → String → String → Tally → Tally
tallied true kind name tally = record tally { located = (kind, name) ∷ tally.located }
tallied false kind name tally = record tally { skipped = suc tally.skipped }

unfoldable pub check_mutation : List (String × Value) → Value → Tally → Result Tally
check_mutation cases row tally = do
  (name, kind) ← key_of row
  expected ← expected_field kind
  expect (reads row ("expected_field" ∷ []) (str expected) ∷ []) "mutation expected field changed"
  artifact ← case_named name cases
  applied ← check_located row artifact kind expected
  ok (tallied applied kind name tally)

unfoldable pub check_rows : List (String × Value) → List Value → Tally → Result Tally
check_rows cases [] tally = ok tally
check_rows cases (row ∷ rows) tally = do
  next ← check_mutation cases row tally
  check_rows cases rows next

unfoldable pub coverage_kinds : List Value → Result (List String)
coverage_kinds [] = ok []
coverage_kinds (row ∷ rows) = do
  kind ← text_at row "mutation"
  kinds ← coverage_kinds rows
  ok (kind ∷ kinds)

unfoldable pub reads_located : Value → List (String × String) → String → Result Bool
reads_located row located kind = do w ← item row "example_case"; ok (has_located located kind w)

unfoldable pub check_tally : List (String × String) → Value → Result (Unit {0})
check_tally located row = do
  kind ← text_at row "mutation"
  expected ← expected_field kind
  let count = int (pos (count_of kind located))
  expect
      (ok (ltb 0 (count_of kind located))
        ∷ reads row ("expected_field" ∷ []) (str expected)
        ∷ reads row ("applied" ∷ []) count
        ∷ reads row ("located" ∷ []) count
        ∷ reads_located row located kind
        ∷ [])
      "invalid coverage tally/example"

unfoldable pub check_tallies : List (String × String) → List Value → Result (Unit {0})
check_tallies located [] = ok tt
check_tallies located (row ∷ rows) = do check_tally located row; check_tallies located rows

-- Every kind of mutation was applied and located in some case.
unfoldable pub check_coverage : List (String × String) → Value → Result (Unit {0})
check_coverage located summary = do
  given ← item summary "coverage"
  rows ← rows_of given
  kinds ← coverage_kinds rows
  require
      (length rows == length mutation_kinds
        && within kinds mutation_kinds
        && within mutation_kinds kinds)
      "mutation coverage incomplete"
  check_tallies located rows

-- dict(counts)
abbrev pub counted : Tally → Fields
counted tally = kinds mutation_kinds
  where
    skips : ℕ → Fields
    skips zero = end
    skips (suc n) = field "skipped" (int (pos (suc n))) end

    kinds : List String → Fields
    kinds [] = field "applied" (int (pos (length tally.located))) (skips tally.skipped)
    kinds (kind ∷ rest) = field kind (int (pos (count_of kind tally.located))) (kinds rest)

unfoldable pub check_mutations : Value → List (String × Value) → Result Value
check_mutations summary cases = do
  expect (reads_number summary ("cases" ∷ []) (length cases) ∷ []) "mutation case count"
  expect
      (reads_true summary ("passed" ∷ [])
        ∷ reads summary ("baseline_failures" ∷ []) (list nil)
        ∷ reads summary ("undetected" ∷ []) (list nil)
        ∷ reads summary ("mislocated" ∷ []) (list nil)
        ∷ [])
      "mutation failures reported"
  given ← item summary "reports"
  rows ← rows_of given
  keys ← keys_of rows
  require (is_matrix keys (matrix cases)) "mutation matrix incomplete or duplicated"
  tally ← check_rows cases rows (record { skipped = 0; located = [] })
  expect
      (reads_number summary ("applied" ∷ []) (length tally.located)
        ∷ reads_number summary ("skipped" ∷ []) tally.skipped
        ∷ [])
      "mutation totals changed"
  check_coverage tally.located summary
  ok (dict (counted tally))
