-- ===== src/Runtime/Mutations/Located.antt =====
-- The mutations of the program counter and of the trap flag, in an accepted case: the comparison finds
-- each of them, at the focus.
use mathlib.Core.Path.{subst}
use Prim.Native.Nat.{◌<◌}
use ckb_vm_sail_verify.Base.{
  String, ℕ, zero, suc, ◌+◌, ◌%◌, ◌^◌, ◌≤◌, ◌≡◌, ◌≢◌, refl, sym, ap, ◌∙◌, true, false, Bool-cases,
  inl, inr, some, List, [], ◌∷◌, str_eq, eq_iff, length, pos, arith, ◌==◌, ==_iff,
}
use ckb_vm_sail_verify.Base.Result.{ok, bind-ok, ◌>>=◌, >>=-eq-ok}
use ckb_vm_sail_verify.Base.Result.Returns.{ok-injective}
use ckb_vm_sail_verify.Base.Json.{Value, int, bool, list, items, elements, item, equal}
use ckb_vm_sail_verify.Release.Manifest.{is_one_of}
use ckb_vm_sail_verify.Audit.Checks.{reach, rows_of}
use ckb_vm_sail_verify.Audit.Checks.Facts.{item-Reads, Reads-item, item-reach}
use ckb_vm_sail_verify.Runtime.Trace.{
  observed, elem, set_elem, events_in, as_number, mutated, mutated_event, changed_at, with_events,
  first_difference,
}
use ckb_vm_sail_verify.Runtime.Trace.Agreeing.{
  AgreeOn, none_left, agree_on, AreAgreeing, no_events, agreeing, IsSame,
}
use ckb_vm_sail_verify.Runtime.Trace.Changed.{
  IsChanged, assign-IsChanged, differing_event-changed, in_rest,
}
use ckb_vm_sail_verify.Runtime.Case.{check_case}
use ckb_vm_sail_verify.Runtime.Case.Run.{last_word, IsEvent, IsRun, done, step, IsRecorded}
use ckb_vm_sail_verify.Runtime.Case.Accepted.{check_case_sound}

-- The event that a run has at a place.
record HasEvent (events : List Value) (focus : ℕ) : Type 0 where
  event : Value
  found : elem focus events ≡ ok event
  i : ℕ
  word : ℕ
  pc : ℕ
  next : ℕ
  is_event : IsEvent i word pc event next

IsRun-HasEvent :
    {i pc : ℕ} {words : List ℕ} {events : List Value} (focus : ℕ)
    → IsRun i words pc events
    → focus < length words
    → HasEvent events focus
unfolding elem
IsRun-HasEvent focus done h = absurd (omega (arith, h))
IsRun-HasEvent zero (step {i} {word} {pc} {event = event} next is_event rest) h = record {
  event = event;
  found = refl;
  i = i;
  word = word;
  pc = pc;
  next = next;
  is_event = is_event;
}
IsRun-HasEvent (suc focus) (step next is_event rest) h =
    let e = IsRun-HasEvent focus rest (omega (arith, h)) in
    record {
      event = e.event;
      found = e.found;
      i = e.i;
      word = e.word;
      pc = e.pc;
      next = e.next;
      is_event = e.is_event;
    }

AreAgreeing-at :
    (focus : ℕ) {ls rs : List Value}
    → AreAgreeing ls rs
    → (a b : Value) → elem focus ls ≡ ok a
    → elem focus rs ≡ ok b
    → AgreeOn a b observed
unfolding elem
AreAgreeing-at focus no_events a b at_left at_right = cc at_left
AreAgreeing-at zero (agreeing {a = p} {b = q} agree later) a b at_left at_right =
    subst (λ v. AgreeOn a v observed) (ok-injective q b at_right)
      (subst (λ u. AgreeOn u q observed) (ok-injective p a at_left) agree)
AreAgreeing-at (suc focus) (agreeing agree later) a b at_left at_right =
    AreAgreeing-at focus later a b at_left at_right

AgreeOn-at :
    {a b : Value} (ks : List String) (k : String)
    → AgreeOn a b ks
    → is_one_of ks k ≡ true
    → (x y : Value) → item a k ≡ ok x
    → item b k ≡ ok y
    → equal x y ≡ true
AgreeOn-at [] k none_left m x y e f = cc m
AgreeOn-at {a} {b} (j ∷ ks) k (agree_on u v g h same later) m x y e f =
    elim (Bool-cases (str_eq j k)) [
      | inl is ↦ at ((eq_iff j k).0 is)
      | inr is ↦ AgreeOn-at ks k later (in_rest (str_eq j k) _ m is) x y e f
    ]
  where
    at : j ≡ k → equal x y ≡ true
    at s =
        subst (λ z. equal z y ≡ true) (ok-injective u x (sym g ∙ ap (item a) s ∙ e))
          (subst (λ z. equal u z ≡ true) (ok-injective v y (sym h ∙ ap (item b) s ∙ f)) same)

elements-items : (vs : List Value) → elements (items vs) ≡ vs
elements-items [] = refl
elements-items (v ∷ vs) = ap (λ ws. v ∷ ws) (elements-items vs)

-- The events of a trace, replaced.
with_events-found :
    (trace old : Value) (events : List Value)
    → item trace "events" ≡ ok old
    → (w : Value) × (with_events trace events ≡ ok (some w)) × (events_in w ≡ ok events)
unfolding with_events events_in rows_of
with_events-found trace old events e =
    let (w, made, changed) = assign-IsChanged "events" (list (items events)) trace old e in
    (w, bind-ok _ made refl, bind-ok _ changed.at_key (ap ok (elements-items events)))

-- A trace in which the event at the focus has another value at `k` is found to differ there.
module _ (ckb sail : Value) (same : IsSame ckb sail) (focus : ℕ) (k : String) where
  changed_found :
      (a b c new y : Value)
      → elem focus (same.first ∷ same.rest) ≡ ok a
      → elem focus same.others ≡ ok b
      → mutated_event k a ≡ ok c
      → IsChanged a c k new
      → item b k ≡ ok y
      → equal new y ≡ false
      → is_one_of observed k ≡ true
      → (w : Value) × ((changed_at (mutated_event k) focus (same.first ∷ same.rest)
            >>= with_events ckb)
          ≡ ok (some w))
        × (first_difference w sail ≡ ok (some k, some focus))
  unfolding changed_at first_difference events_in
  changed_found a b c new y at_left at_right made changed e f m =
      let (old, has_events, _) = >>=-eq-ok (item ckb "events") _ same.has_left in
      let events = set_elem focus c (same.first ∷ same.rest) in
      let (w, stored, found) = with_events-found ckb old events has_events in
      (
        w,
        bind-ok _ (bind-ok _ at_left (bind-ok _ made refl)) stored,
        bind-ok _ found (
            bind-ok _ same.has_right (
              bind-ok _
                (differing_event-changed 0 focus focus (omega arith) same.events_agree a b at_left
                  at_right changed y e f m)
                refl)),
      )

-- The address two further on, with wrap-around, is another one.
moved : (n : ℕ) → n ≤ last_word → ((n + 2) % 2 ^ 64) ≢ n
moved n h e = omega (arith, h, e)

differs_int : (m n : ℕ) → m ≢ n → equal (int (pos m)) (int (pos n)) ≡ false
unfolding equal
differs_int m n other = elim (Bool-cases (m == n)) [
  | inl h ↦ absurd (other ((==_iff m n).0 h))
  | inr h ↦ h
]

equal_int : (m n : ℕ) → equal (int (pos m)) (int (pos n)) ≡ true → m ≡ n
unfolding equal
equal_int m n h = (==_iff m n).0 h

-- The mutation of this kind can be applied at the focus, and is found there.
pub record IsFound (ckb sail : Value) (kind : String) (focus : ℕ) : Type 0 where
  pub changed : Value
  pub made : mutated ckb kind focus ≡ ok (some changed)
  pub located : first_difference changed sail ≡ ok (some kind, some focus)

module _ (ckb sail : Value) (same : IsSame ckb sail) (focus : ℕ)
    (left : HasEvent (same.first ∷ same.rest) focus) (right : HasEvent same.others focus) where
  pc_after-IsFound : IsFound ckb sail "pc_after" focus
  unfolding mutated mutated_event as_number is_one_of
  pc_after-IsFound =
      let a = left.event in
      let b = right.event in
      let p = left.is_event in
      let q = right.is_event in
      let new = int (pos ((left.next + 2) % 2 ^ 64)) in
      let (c, made, changed) = assign-IsChanged "pc_after" new a _ p.after in
      let agree = AreAgreeing-at focus same.events_agree a b left.found right.found in
      let next =
        equal_int left.next right.next
          (AgreeOn-at observed "pc_after" agree refl _ _ p.after q.after) in
      let (w, stored, located) =
        changed_found ckb sail same focus "pc_after" a b c new (int (pos right.next)) left.found
          right.found (bind-ok _ p.after (bind-ok _ refl made)) changed q.after
          (differs_int _ _ λ e. moved left.next p.fits (e ∙ sym next)) refl in
      record { changed = w; made = bind-ok _ same.has_left stored; located = located }

  trap-IsFound : IsFound ckb sail "trap" focus
  unfolding mutated mutated_event is_one_of equal
  trap-IsFound =
      let a = left.event in
      let b = right.event in
      let p = left.is_event in
      let q = right.is_event in
      let no_trap = Reads-item a _ "trap" p.no_trap in
      let (c, made, changed) = assign-IsChanged "trap" (bool true) a _ no_trap in
      let (w, stored, located) =
        changed_found ckb sail same focus "trap" a b c (bool true) (bool false) left.found
          right.found (bind-ok _ no_trap made) changed (Reads-item b _ "trap" q.no_trap) refl
          refl in
      record { changed = w; made = bind-ok _ same.has_left stored; located = located }

run-HasEvent :
    (trace : Value) (words : List ℕ) (events : List Value) (focus : ℕ)
    → IsRecorded trace words
    → events_in trace ≡ ok events
    → focus < length words
    → HasEvent events focus
run-HasEvent trace words events focus recorded e h =
    subst (λ es. HasEvent es focus) (ok-injective _ _ (sym recorded.has_events ∙ e))
      (IsRun-HasEvent focus recorded.run h)

-- In an accepted case, a changed program counter and a changed trap flag are not overlooked: each of the
-- two mutations can be applied to the event at the focus, and the comparison with the trace of Sail
-- finds it at this event and names the changed observation.
pub mutation-IsFound :
    (row artifact environment : Value)
    → check_case row artifact environment ≡ ok tt
    → (ckb : Value) × (sail : Value) × (focus : ℕ) × (item artifact "ckb_trace" ≡ ok ckb)
      × (item artifact "sail_trace" ≡ ok sail)
      × (reach artifact ("case" ∷ "focus_step" ∷ []) ≡ ok (int (pos focus)))
      × IsFound ckb sail "pc_after" focus
      × IsFound ckb sail "trap" focus
mutation-IsFound row artifact environment h =
    let a = check_case_sound row artifact environment h in
    let p = a.is_program in
    let same = a.same_traces in
    let left = run-HasEvent a.ckb a.words _ p.focus a.ckb_run same.has_left p.inside in
    let right = run-HasEvent a.sail a.words _ p.focus a.sail_run same.has_right p.inside in
    (
      a.ckb,
      a.sail,
      p.focus,
      a.has_ckb,
      a.has_sail,
      item-reach _ _ _ _ a.has_case (item-Reads _ _ _ p.has_focus),
      pc_after-IsFound a.ckb a.sail same p.focus left right,
      trap-IsFound a.ckb a.sail same p.focus left right,
    )
