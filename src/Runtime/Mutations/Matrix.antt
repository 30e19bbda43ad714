-- ===== src/Runtime/Mutations/Matrix.antt =====
-- What an accepted matrix of mutations shows of each case and each kind.
use mathlib.Core.Path.{subst}
use ckb_vm_sail_verify.Base.{
  String, ℕ, ◌≡◌, sym, ap, ◌∙◌, ◌⊎◌, inl, inr, Bool, true, Bool-cases, ◌&&◌, &&-eq-true, ◌||◌,
  Option, none, some, List, [], ◌∷◌, str_eq, eq_iff, all, length, ◌==◌, In, here, there,
}
use ckb_vm_sail_verify.Base.Result.{ok, ◌>>=◌, >>=-eq-ok, bind-ok}
use ckb_vm_sail_verify.Base.Result.Returns.{
  Returns, Returns-ok, Returns-bind, Returns-require, Returns-self, ok-injective,
}
use ckb_vm_sail_verify.Base.Json.{Value, item}
use ckb_vm_sail_verify.Audit.Checks.{reach}
use ckb_vm_sail_verify.Audit.Checks.Facts.{Returns-expect}
use ckb_vm_sail_verify.Runtime.Trace.{mutated, first_difference, as_number}
use ckb_vm_sail_verify.Runtime.Mutations.{
  Tally, expected_field, key_of, keys_of, matrix, has_key, is_matrix, case_named, is_field,
  check_outcome, check_located, check_mutation, check_rows, check_mutations,
}

-- The trace of ckb-vm in this case was mutated again: there is nothing to change, or the first difference
-- from the trace of Sail is the expected observation.
pub record IsMutated (cases : List (String × Value)) (name kind : String) : Type 0 where
  pub artifact : Value
  pub is_case : case_named name cases ≡ ok artifact
  pub expected : String
  pub is_expected : expected_field kind ≡ ok expected
  pub trace : Value
  pub has_trace : item artifact "ckb_trace" ≡ ok trace
  pub focus : ℕ
  pub has_focus : (reach artifact ("case" ∷ "focus_step" ∷ []) >>= as_number) ≡ ok focus
  pub outcome :
      (mutated trace kind focus ≡ ok none)
      ⊎ ((changed : Value) × (sail : Value) × (i : Option ℕ) × (mutated trace kind focus
            ≡ ok (some changed))
          × (item artifact "sail_trace" ≡ ok sail)
          × (first_difference changed sail ≡ ok (some expected, i)))

is_field-some : (o : Option String) (k : String) → is_field o k ≡ true → o ≡ some k
is_field-some none k h = cc h
is_field-some (some j) k h = ap some ((eq_iff j k).0 h)

-- What the outcome of one row shows of the mutated trace.
abbrev Located : Value → String → Option Value → Type 0
Located artifact expected none = Unit
Located artifact expected (some changed) =
    (sail : Value) × (i : Option ℕ) × (item artifact "sail_trace" ≡ ok sail)
    × (first_difference changed sail ≡ ok (some expected, i))

check_outcome-Located :
    (row artifact : Value) (expected : String) (changed : Option Value)
    → Returns (λ _. Located artifact expected changed) (check_outcome row artifact expected changed)
unfolding check_outcome
check_outcome-Located row artifact expected none = Returns-self _ λ _ _. tt
check_outcome-Located row artifact expected (some changed) = Returns-bind λ sail e.
    Returns-bind λ found f. Returns-require _ λ h.
      Returns-self _
        λ _ _. (sail, found.1, e, f ∙ ap (λ k. ok (k, found.1)) (is_field-some found.0 expected h))

check_mutation-IsMutated :
    (cases : List (String × Value)) (row : Value) (tally : Tally)
    → Returns
        (λ _. (key : String × String) × (key_of row ≡ ok key) × IsMutated cases (key.0) (key.1))
        (check_mutation cases row tally)
unfolding check_mutation check_located
check_mutation-IsMutated cases row tally = Returns-bind λ key a. Returns-bind λ expected b.
    Returns-expect _ _ λ _. Returns-bind λ artifact c.
      Returns-bind λ applied d.
        Returns-self _ λ _ _. (key, a, (located key expected artifact b c).at applied d)
  where
    located :
        (key : String × String) (expected : String) (artifact : Value)
        → expected_field (key.1) ≡ ok expected
        → case_named (key.0) cases ≡ ok artifact
        → Returns
            (λ _. IsMutated cases (key.0) (key.1))
            (check_located row artifact (key.1) expected)
    located key expected artifact b c = Returns-bind λ trace e. Returns-bind λ step s.
        Returns-bind λ focus n. Returns-bind λ changed f. Returns-self _ λ u g. record {
          artifact = artifact;
          is_case = c;
          expected = expected;
          is_expected = b;
          trace = trace;
          has_trace = e;
          focus = focus;
          has_focus = bind-ok _ s n;
          outcome =
              outcome_of artifact expected trace (key.1) focus changed f
                ((check_outcome-Located row artifact expected changed).at u g);
        }
      where
        outcome_of :
            (artifact : Value) (expected : String) (trace : Value) (kind : String) (focus : ℕ)
            (changed : Option Value)
            → mutated trace kind focus ≡ ok changed
            → Located artifact expected changed
            → (mutated trace kind focus ≡ ok none)
              ⊎ ((w : Value) × (sail : Value) × (i : Option ℕ) × (mutated trace kind focus
                    ≡ ok (some w))
                  × (item artifact "sail_trace" ≡ ok sail)
                  × (first_difference w sail ≡ ok (some expected, i)))
        outcome_of artifact expected trace kind focus none f l = inl f
        outcome_of artifact expected trace kind focus (some w) f (sail, i, e, g) =
            inr (w, sail, i, f, e, g)

-- The rows show this of all their keys.
AllMutated : List (String × Value) → List (String × String) → Type 0
AllMutated cases keys =
    (name kind : String) → has_key keys (name, kind) ≡ true → IsMutated cases name kind

key_cases :
    (a b c d : String) (r : Bool)
    → ((str_eq a c && str_eq b d) || r) ≡ true
    → ((a ≡ c) × (b ≡ d)) ⊎ (r ≡ true)
key_cases a b c d r h = elim (Bool-cases (str_eq a c && str_eq b d)) [
  | inl e ↦ let (f, g) = &&-eq-true _ _ e in inl ((eq_iff a c).0 f, (eq_iff b d).0 g)
  | inr e ↦ inr (sym (ap (λ t. t || r) e) ∙ h)
]

check_rows-AllMutated :
    (cases : List (String × Value)) (rows : List Value) (tally : Tally)
    (keys : List (String × String))
    → keys_of rows ≡ ok keys
    → Returns (λ _. AllMutated cases keys) (check_rows cases rows tally)
unfolding check_rows keys_of AllMutated
check_rows-AllMutated cases [] tally keys e = Returns-ok tally λ name kind h.
    absurd (cc (sym h ∙ ap (λ ks. has_key ks (name, kind)) (sym (ok-injective _ _ e))))
check_rows-AllMutated cases (row ∷ rows) tally keys e = Returns-bind λ next f.
    Returns-self _ λ last g.
      let (key, has_row, rest) = >>=-eq-ok (key_of row) _ e in
      let (others, has_rows, all_keys) = >>=-eq-ok (keys_of rows) _ rest in
      let (found, same, first) = (check_mutation-IsMutated cases row tally).at next f in
      let later = (check_rows-AllMutated cases rows next others has_rows).at last g in
      λ name kind h.
        either name kind key found (ok-injective key found (sym has_row ∙ same)) first
          (later name kind)
          (key_cases (key.0) (key.1) name kind (has_key others (name, kind))
            (ap (λ ks. has_key ks (name, kind)) (ok-injective _ _ all_keys) ∙ h))
  where
    either :
        (name kind : String) (key found : String × String)
        → key ≡ found
        → IsMutated cases (found.0) (found.1)
        → {r : Bool} → (r ≡ true → IsMutated cases name kind)
        → ((key.0 ≡ name) × (key.1 ≡ kind)) ⊎ (r ≡ true)
        → IsMutated cases name kind
    either name kind key found s first later (inl (p, q)) =
        subst (λ k. IsMutated cases name k) (sym (ap (λ k. k.1) s) ∙ q)
          (subst (λ n. IsMutated cases n (found.1)) (sym (ap (λ k. k.0) s) ∙ p) first)
    either name kind key found s first later (inr r) = later r

all-In :
    (test : String × String → Bool) (keys : List (String × String)) {key : String × String}
    → all test keys ≡ true
    → In key keys
    → test key ≡ true
all-In test [] h m = elim m [ ]
all-In test (k ∷ ks) h here = (&&-eq-true _ _ h).0
all-In test (k ∷ ks) h (there m) = all-In test ks (&&-eq-true _ _ h).1 m

is_matrix-covers :
    (keys expected : List (String × String))
    → is_matrix keys expected ≡ true
    → all (has_key keys) expected ≡ true
is_matrix-covers keys expected h =
    (&&-eq-true (length keys == length expected && all (has_key expected) keys)
      (all (has_key keys) expected) h).1

check_mutations-IsMutated :
    (summary : Value) (cases : List (String × Value))
    → Returns
        (λ _. (name kind : String) → In (name, kind) (matrix cases) → IsMutated cases name kind)
        (check_mutations summary cases)
unfolding check_mutations AllMutated
check_mutations-IsMutated summary cases = Returns-expect _ _ λ _. Returns-expect _ _ λ _.
    Returns-bind λ given _. Returns-bind λ rows _. Returns-bind λ keys e.
      Returns-require _ λ complete. Returns-bind λ tally f. Returns-self _ λ _ _ name kind m.
        (check_rows-AllMutated cases rows _ keys e).at tally f name kind
          (all-In (has_key keys) (matrix cases) (is_matrix-covers keys (matrix cases) complete) m)

-- A matrix of mutations that is accepted has every mutation of every case: each was applied again to the
-- trace of ckb-vm in this case, and either there was nothing to change, or the first difference from
-- the trace of Sail is the observation that the mutation changes.
pub check_mutations_sound :
    (summary counts : Value) (cases : List (String × Value))
    → check_mutations summary cases ≡ ok counts
    → (name kind : String) → In (name, kind) (matrix cases)
    → IsMutated cases name kind
check_mutations_sound summary counts cases h = (check_mutations-IsMutated summary cases).at counts h
