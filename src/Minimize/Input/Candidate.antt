-- ===== src/Minimize/Input/Candidate.antt =====
-- The replay input that the oracle writes.
use mathlib.Core.Path.{subst}
use ckb_vm_sail_verify.Base.{ℕ, ◌≡◌, refl, some, List, str_eq, eq_iff, String, if◌then◌else◌, arith}
use ckb_vm_sail_verify.Base.Result.{ok, >>=-eq-ok}
use ckb_vm_sail_verify.Base.Result.Returns.{ok-injective}
use ckb_vm_sail_verify.Base.Json.{Value, dict, Fields, end, field, find, item}
use ckb_vm_sail_verify.Minimize.Artifact.{program, hex_words}
use ckb_vm_sail_verify.Minimize.Artifact.Program.{
  IsSequence, word_values, equal-hex_words, IsReplayable, program_iff,
}
use ckb_vm_sail_verify.Minimize.Input.{
  assign, update, with_case, candidate_of, case_changes, top_changes,
}

-- d[k] = v changes what `k` finds, and nothing else.
pub find-assign :
    (k j : String) (v : Value) (fs : Fields)
    → find j (assign k v fs) ≡ (if str_eq k j then some v else find j fs)
unfolding assign
find-assign k j v end = refl
find-assign k j v (field i w rest) =
    ground (arith, eq_iff k j, eq_iff i k, eq_iff i j, find-assign k j v rest)

candidate-instructions :
    (words : List ℕ) (inner : Fields)
    → find "instructions" (update (case_changes words) inner) ≡ some (word_values words)
unfolding update
candidate-instructions words inner = simp find-assign

candidate-hex :
    (words : List ℕ) (top : Fields)
    → find "instructions_hex" (update (top_changes words) top) ≡ some (hex_words words)
unfolding update
candidate-hex words top = simp find-assign

candidate-case :
    (words : List ℕ) (case : Value) (top : Fields)
    → find "case" (update (top_changes words) (assign "case" case top)) ≡ some case
unfolding update
candidate-case words case top = simp find-assign

candidate-rest :
    (words : List ℕ) (case : Value) (top : Fields)
    → (find "schema_version" (update (top_changes words) (assign "case" case top))
        ≡ find "schema_version" top)
      × (find "initial_state" (update (top_changes words) (assign "case" case top))
          ≡ find "initial_state" top)
unfolding update
candidate-rest words case top = (simp find-assign, simp find-assign)

item-of-find : (k : String) (fs : Fields) (v : Value) → find k fs ≡ some v → item (dict fs) k ≡ ok v
item-of-find k fs v h = ground arith

-- A key that both dicts have alike.
item-of-same :
    (k : String) (fs gs : Fields) (v : Value)
    → find k fs ≡ find k gs
    → item (dict gs) k ≡ ok v
    → item (dict fs) k ≡ ok v
item-of-same k fs gs v same h = ground arith

accepted :
    (top inner : Fields) (words ws : List ℕ)
    → IsReplayable (dict top) ws
    → IsSequence words
    → IsReplayable
        (dict (
          update
            (top_changes words)
            (assign "case" (dict (update (case_changes words) inner)) top)))
        words
accepted top inner words ws r s =
    let inside = update (case_changes words) inner in
    let case : Value = dict inside in
    let outside = update (top_changes words) (assign "case" case top) in
    let (same_version, same_initial) = candidate-rest words case top in
    record {
      version = r.version;
      has_version = item-of-same "schema_version" outside top r.version same_version r.has_version;
      is_schema3 = r.is_schema3;
      case = case;
      has_case = item-of-find "case" outside case (candidate-case words case top);
      has_words = item-of-find "instructions" inside _ (candidate-instructions words inner);
      is_sequence = s;
      hex = hex_words words;
      has_hex =
          item-of-find "instructions_hex" outside _ (candidate-hex words (assign "case" case top));
      is_hex = equal-hex_words words;
      initial = r.initial;
      has_initial = item-of-same "initial_state" outside top r.initial same_initial r.has_initial;
      is_reset = r.is_reset;
    }

-- The input that the oracle writes for a sequence is a replay input for this very sequence, if the
-- recorded artifact was one for some sequence.
pub candidate_accepted :
    (artifact candidate : Value) (ws words : List ℕ)
    → program artifact ≡ ok ws
    → IsSequence words
    → candidate_of artifact words ≡ ok candidate
    → program candidate ≡ ok words
unfolding candidate_of
candidate_accepted (dict top) candidate ws words p s h =
    let (case, e, k) = >>=-eq-ok (item (dict top) "case") _ h in by_case case k
  where
    by_case :
        (case : Value) → with_case top words case ≡ ok candidate → program candidate ≡ ok words
    by_case (dict inner) k = (program_iff candidate words).1 (
        subst (λ c. IsReplayable c words) (ok-injective _ _ k)
          (accepted top inner words ws ((program_iff (dict top) ws).0 p) s))
    by_case _ k = cc
candidate_accepted _ candidate ws words p s h = cc
