-- ===== src/Minimize/Input.antt =====
-- The replay input that `ReplayOracle` of scripts/minimize_mismatch.py writes for a candidate.
pub mod Candidate
use ckb_vm_sail_verify.Base.{
  ℕ, zero, suc, ◌+◌, ◌≡◌, Bool, true, false, ◌&&◌, Option, none, some, List, [], ◌∷◌, ◌++◌, map,
  length, ltb, leb, str_eq, if◌then◌else◌, String, ◌<>◌, ℤ, pos,
}
use ckb_vm_sail_verify.Base.Result.{
  Error, Result, ok, err, runtime_error, budget_exhausted, type_error, require,
}
use ckb_vm_sail_verify.Base.Result
use ckb_vm_sail_verify.Base.Exec.{Exec, ◌>>=◌, ◌>>◌, pure, raise, lift, demand}
use ckb_vm_sail_verify.Base.Json.{
  Value, null, bool, int, str, list, dict, nil, Fields, end, field, fields, items, item,
}
use ckb_vm_sail_verify.Minimize.Decimal.{decimal, decimal5}
use ckb_vm_sail_verify.Minimize.Artifact.{Signature, hex_words}
use ckb_vm_sail_verify.Minimize.Trial.{check_trial, check_environment}

-- d[k] = v, in the place of an earlier entry
unfoldable pub assign : String → Value → Fields → Fields
assign k v end = field k v end
assign k v (field j w rest) = if str_eq j k then field k v rest else field j w (assign k v rest)

-- d.update(rows)
unfoldable pub update : List (String × Value) → Fields → Fields
unfolding assign
update [] fs = fs
update ((k, v) ∷ rest) fs = update rest (assign k v fs)

abbrev word_values : List ℕ → Value
word_values ws = list (items (map (λ w. int (pos w)) ws))

abbrev pub case_changes : List ℕ → List (String × Value)
case_changes words =
    ("id", str "candidate")
    ∷ ("instructions", word_values words)
    ∷ ("focus_step", int (pos 0))
    ∷ ("description", str "minimizer replay input; focus_step is not a mismatch location")
    ∷ ("seed", null)
    ∷ []

abbrev pub top_changes : List ℕ → List (String × Value)
top_changes words =
    ("instructions_hex", hex_words words)
    ∷ ("passed", bool false)
    ∷ ("classification", str "input_only")
    ∷ ("comparison", null)
    ∷ ("error", str "not yet executed")
    ∷ ("ckb_trace", null)
    ∷ ("sail_trace", null)
    ∷ ("sail_raw_packets", list nil)
    ∷ ("replay", dict (fields (("from_artifact", str "") ∷ ("from_corpus", null) ∷ [])))
    ∷ []

-- candidate['case'].update(...); candidate.update(...). `case` is inside the artifact.
abbrev with_case : Fields → List ℕ → Value → Result Value
with_case top words (dict inner) = ok (
    dict
      (update (top_changes words) (assign "case" (dict (update (case_changes words) inner)) top)))
with_case top words _ = err type_error

-- The replay input of a trial, from the deep copy of the recorded artifact.
unfoldable pub candidate_of : Value → List ℕ → Result Value
unfolding update
candidate_of (dict top) words = Result.◌>>=◌ (item (dict top) "case") (with_case top words)
candidate_of _ words = err type_error
