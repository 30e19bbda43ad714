-- ===== src/Runtime/Trace/Changed.antt =====
-- Values and traces with one field changed, as `mutated` makes them.
use mathlib.Core.Path.{subst}
use ckb_vm_sail_verify.Base.{
  String, ℕ, zero, suc, ◌+◌, ◌≡◌, refl, sym, ap, ◌∙◌, inl, inr, Bool, true, false, Bool-cases,
  Option, none, some, List, [], ◌∷◌, str_eq, eq_iff, ◌||◌, if◌then◌else◌, arith,
}
use ckb_vm_sail_verify.Base.Result.{Result, ok, err, key_error, bind-ok, ◌>>=◌}
use ckb_vm_sail_verify.Base.Result.Returns.{ok-injective}
use ckb_vm_sail_verify.Base.Json.{Value, dict, Fields, end, field, find, item, equal}
use ckb_vm_sail_verify.Release.Manifest.{is_one_of}
use ckb_vm_sail_verify.Audit.Checks.{set_field, fields_of}
use ckb_vm_sail_verify.Runtime.Trace.{
  observed, assign, differing_field, differing_event, elem, set_elem,
}
use ckb_vm_sail_verify.Runtime.Trace.Agreeing.{
  AgreeOn, AgreeOn-differing_field, none_left, agree_on, AreAgreeing, no_events, agreeing,
}

str_eq_refl : (k : String) → str_eq k k ≡ true
str_eq_refl k = (eq_iff k k).1 refl

str_eq-other : (j k : String) → str_eq j k ≡ false → str_eq k j ≡ false
str_eq-other j k n = elim (Bool-cases (str_eq k j)) [
  | inl h ↦ absurd (cc (sym n ∙ (eq_iff j k).1 (sym ((eq_iff k j).0 h))))
  | inr h ↦ h
]

pub in_rest : (a b : Bool) → (a || b) ≡ true → a ≡ false → b ≡ true
in_rest true b h n = cc n
in_rest false b h n = h

find-set_field : (k : String) (v : Value) (fs : Fields) → find k (set_field k v fs) ≡ some v
unfolding set_field
find-set_field k v end = rw (str_eq_refl k) refl
find-set_field k v (field j w rest) = elim (Bool-cases (str_eq j k)) [
  | inl h ↦ rw h (rw (str_eq_refl k) refl)
  | inr h ↦ rw h (rw h (find-set_field k v rest))
]

find-set_field-other :
    (k j : String) (v : Value) (fs : Fields)
    → str_eq k j ≡ false
    → find j (set_field k v fs) ≡ find j fs
unfolding set_field
find-set_field-other k j v end other = rw other refl
find-set_field-other k j v (field i w rest) other = elim (Bool-cases (str_eq i k)) [
  | inl h ↦ rw h (rw other (sym (passed ((eq_iff i k).0 h))))
  | inr h ↦ rw h (under (str_eq i j) (find-set_field-other k j v rest other))
]
  where
    passed : i ≡ k → (if str_eq i j then some w else find j rest) ≡ find j rest
    passed e = rw e (rw other refl)

    under :
        (b : Bool)
        → find j (set_field k v rest) ≡ find j rest
        → (if b then some w else find j (set_field k v rest)) ≡ (if b then some w else find j rest)
    under true h = refl
    under false h = h

-- The copy of a dict has the new value at `k`, and the old ones at other keys.
pub record IsChanged (v w : Value) (k : String) (new : Value) : Type 0 where
  pub at_key : item w k ≡ ok new
  pub at_others : (j : String) → str_eq k j ≡ false → item w j ≡ item v j

abbrev found_item : String → Option Value → Result Value
found_item k o = elim o [ none ↦ err (key_error k) | some v ↦ ok v ]

found_at : (k : String) {o p : Option Value} → o ≡ p → found_item k o ≡ found_item k p
found_at k e = ap (found_item k) e

pub assign-IsChanged :
    (k : String) (new v old : Value)
    → item v k ≡ ok old
    → (w : Value) × (assign k new v ≡ ok w) × IsChanged v w k new
unfolding assign fields_of ◌>>=◌
assign-IsChanged k new (dict fs) old e = (
  dict (set_field k new fs),
  refl,
  record {
    at_key = found_at k (find-set_field k new fs);
    at_others = λ j other. found_at j (find-set_field-other k j new fs other);
  },
)
assign-IsChanged k new v old e = cc

-- Where all agrees, a change of one field is the first difference.
pub differing_field-changed :
    {a b c : Value} {k : String} {new : Value} (ks : List String)
    → AgreeOn a b ks
    → IsChanged a c k new
    → (y : Value) → item b k ≡ ok y
    → equal new y ≡ false
    → is_one_of ks k ≡ true
    → differing_field ks c b ≡ ok (some k)
unfolding differing_field
differing_field-changed [] none_left changed y e f m = cc m
differing_field-changed {a} {b} {c} {k} {new} (j ∷ ks) (agree_on x z g h same later) changed y e f
      m =
    by (str_eq j k) refl (λ rest. differing_field-changed ks later changed y e f rest)
  where
    by :
        (t : Bool)
        → str_eq j k ≡ t
        → (is_one_of ks k ≡ true → differing_field ks c b ≡ ok (some k))
        → differing_field (j ∷ ks) c b ≡ ok (some k)
    by true is next =
        let same_key = (eq_iff j k).0 is in
        bind-ok _ (ap (item c) same_key ∙ changed.at_key)
          (bind-ok _ (ap (item b) same_key ∙ e) (rw f (ap (λ i. ok (some i)) same_key)))
    by false is next =
        bind-ok _ (changed.at_others j (str_eq-other j k is) ∙ g)
          (bind-ok _ h (rw same (next (in_rest (str_eq j k) _ m is))))

-- Where the events agree, the change of one event is the first difference.
pub differing_event-changed :
    {k : String} {new : Value} {c : Value} (i focus n : ℕ) {ls rs : List Value}
    → n ≡ i + focus
    → AreAgreeing ls rs
    → (a b : Value) → elem focus ls ≡ ok a
    → elem focus rs ≡ ok b
    → IsChanged a c k new
    → (y : Value) → item b k ≡ ok y
    → equal new y ≡ false
    → is_one_of observed k ≡ true
    → differing_event i (set_elem focus c ls) rs ≡ ok (some (k, n))
unfolding differing_event elem
differing_event-changed i focus n s no_events a b at_left at_right changed y e f m = cc at_left
differing_event-changed {k} i zero n s (agreeing {a = p} {b = q} agree later) a b at_left at_right
      changed y e f m =
    let agree' = subst (λ u. AgreeOn u q observed) (ok-injective p a at_left) agree in
    let e' = ap (λ u. item u k) (ok-injective q b at_right) ∙ e in
    bind-ok _ (differing_field-changed observed agree' changed y e' f m)
      (ap (λ u. ok (some (k, u))) (omega (arith, s)))
differing_event-changed i (suc focus) n s (agreeing {a = p} {b = q} agree later) a b at_left
      at_right changed y e f m =
    bind-ok _ (AgreeOn-differing_field observed agree) (
      differing_event-changed (suc i) focus n (omega (arith, s)) later a b at_left at_right changed
        y e f m)
