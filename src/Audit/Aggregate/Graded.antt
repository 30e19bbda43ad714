-- ===== src/Audit/Aggregate/Graded.antt =====
-- What the grades of a verdict that passes are.
use ckb_vm_sail_verify.Base.{
  String, ℕ, ◌≡◌, refl, Bool, true, false, ◌||◌, not, Option, none, some, List, [], ◌∷◌, str_eq,
  eq_iff, if◌then◌else◌, All, arith,
}
use ckb_vm_sail_verify.Base.Result.{Error, Result, ok, err}
use ckb_vm_sail_verify.Base.Json.{Value, null, is_none, equal}
use ckb_vm_sail_verify.Audit.Aggregate.{
  Slot, Status, deferred, missing, settle, absent, snapshot_in, differs, is_drifted,
}
use ckb_vm_sail_verify.Audit.Aggregate.Verdict.{
  worst, grade, worst_of, bad_if, IsCode, zero_passed, one_invalid, two_incomplete,
}

pub worst-passed :
    (a b : Status) → worst a b ≡ Status.passed → (a ≡ Status.passed) × (b ≡ Status.passed)
worst-passed Status.passed b h = (refl, h)
worst-passed Status.incomplete Status.invalid h = cc h
worst-passed Status.incomplete Status.incomplete h = cc h
worst-passed Status.incomplete Status.passed h = cc h
worst-passed Status.invalid b h = cc h

pub code-passed : (s : Status) (code : ℕ) → IsCode s code → code ≡ 0 → s ≡ Status.passed
code-passed s code zero_passed e = refl
code-passed s code one_invalid e = absurd (omega (arith, e))
code-passed s code two_incomplete e = absurd (omega (arith, e))

pub worst_of-passed :
    (slots : List (String × Slot))
    → worst_of slots ≡ Status.passed
    → All (λ entry. grade (entry.1) ≡ Status.passed) slots
worst_of-passed [] h = tt
worst_of-passed ((name, slot) ∷ slots) h =
    let (first, rest) = worst-passed (grade slot) (worst_of slots) h in
    (first, worst_of-passed slots rest)

pub not-bad : (b : Bool) → bad_if b ≡ Status.passed → b ≡ false
not-bad true h = cc h
not-bad false h = refl

-- A snapshot that a slot reports is the current one.
abbrev pub IsCurrentIn : Value → Option Value → Type 0
IsCurrentIn current none = Unit
IsCurrentIn current (some v) = equal v current ≡ true

neither : (a b : Bool) → (a || b) ≡ false → (a ≡ false) × (b ≡ false)
neither a b h = ground arith

differs-IsCurrentIn :
    (current : Value) (o : Option Value) → differs current o ≡ false → IsCurrentIn current o
differs-IsCurrentIn current none h = tt
differs-IsCurrentIn current (some v) h = no-not (equal v current) h
  where
    no-not : (b : Bool) → not b ≡ false → b ≡ true
    no-not b h = ground arith

-- Only a validator that returned makes a slot that passes.
pub settle-verified :
    (row : Value) (r : Result Value)
    → grade (settle row r) ≡ Status.passed
    → (summary : Value) × (r ≡ ok summary)
unfolding settle
settle-verified row (ok summary) h = (summary, refl)
settle-verified row (err (Error.incomplete m)) h = absurd (cc h)
settle-verified row (err (Error.runtime_error m)) h = absurd (cc h)
settle-verified row (err (Error.budget_exhausted m)) h = absurd (cc h)
settle-verified row (err (Error.key_error m)) h = absurd (cc h)
settle-verified row (err (Error.os_error m)) h = absurd (cc h)
settle-verified row (err Error.type_error) h = absurd (cc h)

pub absent-third_party :
    (name : String) → grade (absent name) ≡ Status.passed → name ≡ "third_party"
absent-third_party name h = by (str_eq name "third_party") refl h
  where
    by :
        (t : Bool)
        → str_eq name "third_party" ≡ t
        → grade (if t then deferred else missing) ≡ Status.passed
        → name ≡ "third_party"
    by true e h = (eq_iff name "third_party").0 e
    by false e h = absurd (cc h)

pub null-value : (v : Value) → is_none v ≡ true → v ≡ null
null-value null h = refl
null-value v h = cc h

pub is_drifted-Current :
    (current : Value) (slots : List (String × Slot))
    → is_drifted current slots ≡ false
    → All (λ entry. IsCurrentIn current (snapshot_in (entry.1))) slots
unfolding is_drifted
is_drifted-Current current [] h = tt
is_drifted-Current current ((name, slot) ∷ slots) h =
    let (first, rest) = neither (differs current (snapshot_in slot)) (is_drifted current slots) h in
    (differs-IsCurrentIn current (snapshot_in slot) first, is_drifted-Current current slots rest)
