-- ===== src/Runtime/Trace/Agreeing.antt =====
-- What it is for two traces not to differ, apart from `first_difference`.
use mathlib.Core.Path.{subst}
use ckb_vm_sail_verify.Base.{
  String, ℕ, suc, ◌≡◌, refl, ap, ◌∙◌, ◌↔◌, Bool, true, false, Option, none, some, List, [], ◌∷◌,
  length, ◌==◌, ==_iff,
}
use ckb_vm_sail_verify.Base.Result.{ok, bind-ok}
use ckb_vm_sail_verify.Base.Result.Returns.{
  Returns, Returns-ok, Returns-bind, Returns-if, Returns-self,
}
use ckb_vm_sail_verify.Base.Json.{Value, item, equal}
use ckb_vm_sail_verify.Runtime.Trace.{
  observed, differing_field, differing_event, events_in, last_difference, differing_end,
  differing_rest, first_difference,
}

-- Both events have each of these fields, with equal values.
pub data AgreeOn (a b : Value) : List String → Type 0 where
  none_left : AgreeOn a b []
  agree_on :
      {k : String} {ks : List String} (x y : Value)
      → item a k ≡ ok x
      → item b k ≡ ok y
      → equal x y ≡ true
      → AgreeOn a b ks
      → AgreeOn a b (k ∷ ks)

-- As many events in both, and each agrees with the other in every observation.
pub data AreAgreeing : List Value → List Value → Type 0 where
  no_events : AreAgreeing [] []
  agreeing :
      {a b : Value} {as' bs : List Value}
      → AgreeOn a b observed
      → AreAgreeing as' bs
      → AreAgreeing (a ∷ as') (b ∷ bs)

pub record IsSame (left right : Value) : Type 0 where
  pub first : Value
  pub rest : List Value
  pub others : List Value
  pub has_left : events_in left ≡ ok (first ∷ rest)
  pub has_right : events_in right ≡ ok others
  pub events_agree : AreAgreeing (first ∷ rest) others
  pub left_end : Value
  pub right_end : Value
  pub ends : item left "end" ≡ ok left_end
  pub ends_too : item right "end" ≡ ok right_end
  pub same_end : equal left_end right_end ≡ true

differing_field-AgreeOn :
    (ks : List String) (a b : Value)
    → Returns (λ o. o ≡ none → AgreeOn a b ks) (differing_field ks a b)
unfolding differing_field
differing_field-AgreeOn [] a b = Returns-ok none λ _. none_left
differing_field-AgreeOn (k ∷ ks) a b =
    Returns-bind
      λ x e. Returns-bind λ y f. by x y e f (differing_field-AgreeOn ks a b) (equal x y) refl
  where
    by :
        (x y : Value)
        → item a k ≡ ok x
        → item b k ≡ ok y
        → Returns (λ o. o ≡ none → AgreeOn a b ks) (differing_field ks a b)
        → (t : Bool) → equal x y ≡ t
        → Returns
            (λ o. o ≡ none → AgreeOn a b (k ∷ ks))
            (elim t [ true ↦ differing_field ks a b | false ↦ ok (some k) ])
    by x y e f later true same = Returns-self _ λ o g h. agree_on x y e f same (later.at o g h)
    by x y e f later false same = Returns-ok (some k) λ h. absurd (cc h)

pub AgreeOn-differing_field :
    {a b : Value} (ks : List String) → AgreeOn a b ks → differing_field ks a b ≡ ok none
unfolding differing_field
AgreeOn-differing_field [] none_left = refl
AgreeOn-differing_field (k ∷ ks) (agree_on x y e f same later) =
    bind-ok _ e (bind-ok _ f (rw same (AgreeOn-differing_field ks later)))

-- The same number of events is left, or this pair of lists is not empty on both sides.
differing_event-AreAgreeing :
    (i : ℕ) (ls rs : List Value)
    → Returns (λ o. o ≡ none → length ls ≡ length rs → AreAgreeing ls rs) (differing_event i ls rs)
unfolding differing_event
differing_event-AreAgreeing i [] [] = Returns-ok none λ _ _. no_events
differing_event-AreAgreeing i [] (b ∷ bs) = Returns-ok none λ _ h. absurd (cc h)
differing_event-AreAgreeing i (a ∷ as') [] = Returns-ok none λ _ h. absurd (cc h)
differing_event-AreAgreeing i (a ∷ as') (b ∷ bs) = Returns-bind λ found e.
    by found ((differing_field-AgreeOn observed a b).at found e)
      (differing_event-AreAgreeing (suc i) as' bs)
  where
    by :
        (found : Option String)
        → (found ≡ none → AgreeOn a b observed)
        → Returns
            (λ o. o ≡ none → length as' ≡ length bs → AreAgreeing as' bs)
            (differing_event (suc i) as' bs)
        → Returns
            (λ o. o ≡ none → length (a ∷ as') ≡ length (b ∷ bs) → AreAgreeing (a ∷ as') (b ∷ bs))
            (elim found [ none ↦ differing_event (suc i) as' bs | some k ↦ ok (some (k, i)) ])
    by none agree later = Returns-self _ λ o e h n. agreeing (agree refl) (later.at o e h (cc n))
    by (some k) agree later = Returns-ok _ λ h. absurd (cc h)

pub AreAgreeing-differing_event :
    (i : ℕ) {ls rs : List Value} → AreAgreeing ls rs → differing_event i ls rs ≡ ok none
unfolding differing_event
AreAgreeing-differing_event i no_events = refl
AreAgreeing-differing_event i (agreeing agree later) =
    bind-ok _ (AgreeOn-differing_field observed agree) (AreAgreeing-differing_event (suc i) later)

pub AreAgreeing-length : {ls rs : List Value} → AreAgreeing ls rs → length ls ≡ length rs
AreAgreeing-length no_events = refl
AreAgreeing-length (agreeing agree later) = ap suc (AreAgreeing-length later)

-- Nothing is left to differ at the end of two traces.
record HaveSameEnd (left right : Value) (ls : List Value) : Type 0 where
  first : Value
  rest : List Value
  split : ls ≡ first ∷ rest
  left_end : Value
  right_end : Value
  ends : item left "end" ≡ ok left_end
  ends_too : item right "end" ≡ ok right_end
  same_end : equal left_end right_end ≡ true

last_difference-none :
    (ls : List Value) (t : Bool)
    → last_difference ls t ≡ (none, none)
    → (first : Value) × (rest : List Value) × (ls ≡ first ∷ rest) × (t ≡ true)
unfolding last_difference
last_difference-none ls false h = absurd (cc (ap (λ p. p.0) h))
last_difference-none [] true h = absurd (cc (ap (λ p. p.0) h))
last_difference-none (e ∷ es) true h = (e, es, refl, refl)

differing_end-HaveSameEnd :
    (left right : Value) (ls : List Value)
    → Returns (λ d. d ≡ (none, none) → HaveSameEnd left right ls) (differing_end left right ls)
unfolding differing_end
differing_end-HaveSameEnd left right ls = Returns-bind λ a e. Returns-bind λ b f. Returns-ok _ λ h.
    let (first, rest, split, same) = last_difference-none ls (equal a b) h in
    record {
      first = first;
      rest = rest;
      split = split;
      left_end = a;
      right_end = b;
      ends = e;
      ends_too = f;
      same_end = same;
    }

differing_rest-HaveSameEnd :
    (left right : Value) (ls rs : List Value)
    → Returns
        (λ d. d ≡ (none, none) → (length ls ≡ length rs) × HaveSameEnd left right ls)
        (differing_rest left right ls rs)
unfolding differing_rest
differing_rest-HaveSameEnd left right ls rs =
    Returns-if (length ls == length rs)
      (λ n.
        Returns-self _
          λ d e h. ((==_iff _ _).0 n, (differing_end-HaveSameEnd left right ls).at d e h))
      (λ _. Returns-ok _ λ h. absurd (cc (ap (λ p. p.0) h)))

first_difference-IsSame :
    (left right : Value)
    → Returns (λ d. d ≡ (none, none) → IsSame left right) (first_difference left right)
unfolding first_difference
first_difference-IsSame left right = Returns-bind λ ls e. Returns-bind λ rs f.
    Returns-bind λ found g. by ls rs e f found ((differing_event-AreAgreeing 0 ls rs).at found g)
  where
    by :
        (ls rs : List Value)
        → events_in left ≡ ok ls
        → events_in right ≡ ok rs
        → (found : Option (String × ℕ)) → (found ≡ none → length ls ≡ length rs → AreAgreeing ls rs)
        → Returns
            (λ d. d ≡ (none, none) → IsSame left right)
            (elim found [
              | none ↦ differing_rest left right ls rs
              | some (k, i) ↦ ok (some k, some i)
            ])
    by ls rs e f none agree = Returns-self _ λ d g h.
        let (n, last) = (differing_rest-HaveSameEnd left right ls rs).at d g h in
        record {
          first = last.first;
          rest = last.rest;
          others = rs;
          has_left = e ∙ ap ok last.split;
          has_right = f;
          events_agree = subst (λ es. AreAgreeing es rs) last.split (agree refl n);
          left_end = last.left_end;
          right_end = last.right_end;
          ends = last.ends;
          ends_too = last.ends_too;
          same_end = last.same_end;
        }
    by ls rs e f (some (k, i)) agree = Returns-ok _ λ h. absurd (cc (ap (λ p. p.0) h))

IsSame-first_difference :
    {left right : Value} → IsSame left right → first_difference left right ≡ ok (none, none)
unfolding first_difference differing_rest differing_end last_difference
IsSame-first_difference s = bind-ok _ s.has_left (
    bind-ok _ s.has_right (
      bind-ok _ (AreAgreeing-differing_event 0 s.events_agree) (
        rw ((==_iff _ _).1 (AreAgreeing-length s.events_agree))
          (bind-ok _ s.ends (bind-ok _ s.ends_too (rw s.same_end refl))))))

-- `first_difference` finds nothing exactly where both traces have events, as many of them, each with
-- the same observations in both traces, and an end that is the same.
pub first_difference_iff :
    (left right : Value) → (first_difference left right ≡ ok (none, none)) ↔ IsSame left right
first_difference_iff left right = (
  λ h. (first_difference-IsSame left right).at (none, none) h refl,
  λ s. IsSame-first_difference s,
)
