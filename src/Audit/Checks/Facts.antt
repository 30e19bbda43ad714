-- ===== src/Audit/Checks/Facts.antt =====
-- What the tests of a record show when they pass.
use ckb_vm_sail_verify.Base.{
  String, ℕ, ◌≡◌, refl, ap, ◌∙◌, Bool, true, false, List, [], ◌∷◌, pos, ==_iff, eq_iff, All,
  &&-eq-true, map,
}
use ckb_vm_sail_verify.Base.Result.{Result, ok, err, require, ◌>>=◌, ◌>>◌, both-eq-true, >>=-eq-ok}
use ckb_vm_sail_verify.Base.Result.Returns.{
  Returns, Returns-ok, Returns-err, Returns-bind, Returns-self, ok-injective,
}
use ckb_vm_sail_verify.Base.Json.{
  Value, int, str, bool, dict, Items, nil, cons, items, Fields, end, field, item, equal, is_true,
  is_false,
}
use ckb_vm_sail_verify.Audit.Checks.{
  all_hold, expect, reach, reads, agree, reads_true, reads_false, is_number, reads_number,
  each_field, fields_of, within, keys, has_names, texts_of,
}

abbrev pub Hold : Result Bool → Type 0
Hold test = test ≡ ok true

pub all_hold-All : (tests : List (Result Bool)) → all_hold tests ≡ ok true → All Hold tests
unfolding all_hold
all_hold-All [] h = tt
all_hold-All (test ∷ tests) h =
    let (first, rest) = both-eq-true test (all_hold tests) h in (first, all_hold-All tests rest)

-- The rest may use that each operand holds.
module _ {κ} {B : Type 0} {Q : B → Type κ} where
  pub Returns-expect :
      (tests : List (Result Bool)) (message : String) {k : Result B}
      → (All Hold tests → Returns Q k)
      → Returns Q (expect tests message >> k)
  unfolding expect ◌>>=◌
  Returns-expect tests message {k} h = record { at = λ b e. go (all_hold tests) refl b e }
    where
      go :
          (r : Result Bool)
          → all_hold tests ≡ r
          → (b : B) → ((r >>= λ t. require t message) >> k) ≡ ok b
          → Q b
      go (ok true) e b q = (h (all_hold-All tests e)).at b q
      go (ok false) e b q = absurd (cc q)
      go (err x) e b q = absurd (cc q)

-- A test at the end of the code.
pub expect-Returns {κ} :
    {Q : Unit {0} → Type κ} (tests : List (Result Bool)) (message : String)
    → (All Hold tests → Q tt)
    → Returns Q (expect tests message)
unfolding expect ◌>>=◌ require
expect-Returns {Q = Q} tests message h = record { at = λ b e. go (all_hold tests) refl b e }
  where
    go :
        (r : Result Bool)
        → all_hold tests ≡ r
        → (b : Unit {0}) → (r >>= λ t. require t message) ≡ ok b
        → Q b
    go (ok true) e b q = h (all_hold-All tests e)
    go (ok false) e b q = absurd (cc q)
    go (err x) e b q = absurd (cc q)

-- What a record holds at the end of these keys.
abbrev pub Reads : Value → List String → Value → Type 0
Reads v ks w = reach v ks ≡ ok w

pub item-reach :
    (v w : Value) (k : String) (ks : List String) {r : Result Value}
    → item v k ≡ ok w
    → reach w ks ≡ r
    → reach v (k ∷ ks) ≡ r
unfolding reach ◌>>=◌
item-reach v w k ks h e = ap (λ m. m >>= λ u. reach u ks) h ∙ e

pub item-Reads : (v w : Value) (k : String) → item v k ≡ ok w → Reads v (k ∷ []) w
unfolding reach
item-Reads v w k h = item-reach v w k [] h refl

pub Reads-item : (v w : Value) (k : String) → Reads v (k ∷ []) w → item v k ≡ ok w
unfolding reach
Reads-item v w k h = let (u, found, same) = >>=-eq-ok (item v k) _ h in found ∙ same

-- A test on what is reached tests a value.
reached :
    (v : Value) (ks : List String) (test : Value → Bool)
    → (reach v ks >>= λ w. ok (test w)) ≡ ok true
    → (w : Value) × Reads v ks w × (test w ≡ true)
reached v ks test h =
    let (w, found, holds) = >>=-eq-ok (reach v ks) _ h in (w, found, ok-injective _ _ holds)

pub str-value : (v : Value) (t : String) → equal v (str t) ≡ true → v ≡ str t
unfolding equal
str-value (str s) t h = ap str ((eq_iff s t).0 h)
str-value v t h = cc

pub reads-str :
    (v : Value) (ks : List String) (t : String) → Hold (reads v ks (str t)) → Reads v ks (str t)
unfolding reads
reads-str v ks t h =
    let (w, found, holds) = reached v ks (λ u. equal u (str t)) h in
    found ∙ ap ok (str-value w t holds)

pub reads-equal :
    (v : Value) (ks : List String) (other : Value)
    → Hold (reads v ks other)
    → (w : Value) × Reads v ks w × (equal w other ≡ true)
unfolding reads
reads-equal v ks other h = reached v ks (λ u. equal u other) h

pub true-value : (v : Value) → is_true v ≡ true → v ≡ bool true
true-value (bool true) h = refl
true-value v h = cc

pub false-value : (v : Value) → is_false v ≡ true → v ≡ bool false
false-value (bool false) h = refl
false-value v h = cc

number-value : (n : ℕ) (v : Value) → is_number n v ≡ true → v ≡ int (pos n)
unfolding is_number
number-value n (int (pos m)) h = ap (λ a. int (pos a)) ((==_iff m n).0 h)
number-value n v h = cc

pub reads_true-bool :
    (v : Value) (ks : List String) → Hold (reads_true v ks) → Reads v ks (bool true)
unfolding reads_true
reads_true-bool v ks h =
    let (w, found, holds) = reached v ks is_true h in found ∙ ap ok (true-value w holds)

pub reads_false-bool :
    (v : Value) (ks : List String) → Hold (reads_false v ks) → Reads v ks (bool false)
unfolding reads_false
reads_false-bool v ks h =
    let (w, found, holds) = reached v ks is_false h in found ∙ ap ok (false-value w holds)

pub reads_number-int :
    (v : Value) (ks : List String) (n : ℕ) → Hold (reads_number v ks n) → Reads v ks (int (pos n))
unfolding reads_number
reads_number-int v ks n h =
    let (w, found, holds) = reached v ks (is_number n) h in found ∙ ap ok (number-value n w holds)

pub agree-equal :
    (v : Value) (ks : List String) (u : Value) (js : List String)
    → Hold (agree v ks u js)
    → (a : Value) × (b : Value) × Reads v ks a × Reads u js b × (equal a b ≡ true)
unfolding agree
agree-equal v ks u js h =
    let (a, found, rest) = >>=-eq-ok (reach v ks) _ h in
    let (b, other, holds) = reached u js (equal a) rest in (a, b, found, other, holds)

-- What holds of each entry of a dict.
abbrev pub EachField : (String → Value → Type 0) → Fields → Type 0
EachField P end = Unit
EachField P (field k v rest) = P k v × EachField P rest

pub each_field-EachField :
    {P : String → Value → Type 0} (check : String → Value → Result (Unit {0}))
    → ((k : String) (v : Value) → Returns (λ _. P k v) (check k v))
    → (fs : Fields) → Returns (λ _. EachField P fs) (each_field check fs)
unfolding each_field
each_field-EachField check h end = Returns-ok tt tt
each_field-EachField check h (field k v rest) =
    Returns-bind
      λ u e. Returns-self _ λ w f. ((h k v).at u e, (each_field-EachField check h rest).at w f)

pub fields_of-dict : (v : Value) → Returns (λ fs. v ≡ dict fs) (fields_of v)
unfolding fields_of
fields_of-dict (dict fs) = Returns-ok fs refl
fields_of-dict v = Returns-err _

-- The names of the entries of the dict are these, in some order.
abbrev pub NamesAre : Value → List String → Type 0
NamesAre v names =
    (fs : Fields) × (v ≡ dict fs)
    × (within (keys fs) names ≡ true)
    × (within names (keys fs) ≡ true)

pub has_names-NamesAre :
    (v : Value) (names : List String) → Hold (has_names v names) → NamesAre v names
unfolding has_names
has_names-NamesAre (dict fs) names h =
    let (known, all) = &&-eq-true _ _ (ok-injective _ _ h) in (fs, refl, known, all)
has_names-NamesAre v names h = cc

pub texts_of-items : (vs : Items) → Returns (λ ts. vs ≡ items (map str ts)) (texts_of vs)
unfolding texts_of
texts_of-items nil = Returns-ok [] refl
texts_of-items (cons (str s) rest) =
    Returns-bind λ ts e. Returns-ok (s ∷ ts) (ap (cons (str s)) ((texts_of-items rest).at ts e))
texts_of-items (cons v rest) = Returns-err _
