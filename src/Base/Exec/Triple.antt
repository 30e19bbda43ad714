-- ===== src/Base/Exec/Triple.antt =====
-- What holds after an action, whether it returns or raises, with a rule for each way to build one.
use mathlib.Core.Path.{◌≡◌, refl, subst}
use mathlib.Core.Bool.{Bool, true, false}
use Prim.Native.String.{String}
use ckb_vm_sail_verify.Base.Tests.{if◌then◌else◌}
use ckb_vm_sail_verify.Base.Result.{Result, ok, err, Error}
use ckb_vm_sail_verify.Base.Exec.{Exec, pure, raise, lift, demand, continue, ◌>>=◌}

module _ {S A : Type 0} where
  -- `Q` after a return, `E` after a raise
  abbrev pub Ensures : (A → S → Type 0) → (S → Type 0) → Result A × S → Type 0
  Ensures Q E (ok a, t) = Q a t
  Ensures Q E (err e, t) = E t

  pub record Triple (P : S → Type 0) (m : Exec S A) (Q : A → S → Type 0) (E : S → Type 0)
      : Type 0 where
    pub at : (s : S) → P s → Ensures Q E (m s)

module _ {S A : Type 0} where
  Ensures-ok :
      (Q : A → S → Type 0) (E : S → Type 0) (r : Result A × S) (a : A) (t : S)
      → r ≡ (ok a, t)
      → Ensures Q E r
      → Q a t
  Ensures-ok Q E r a t e h = subst (Ensures Q E) e h

  pub Triple-ok :
      {P : S → Type 0} {m : Exec S A} {Q : A → S → Type 0} {E : S → Type 0} (s : S) (a : A) (t : S)
      → Triple P m Q E
      → P s
      → m s ≡ (ok a, t)
      → Q a t
  Triple-ok {Q = Q} {E = E} s a t h p e = Ensures-ok Q E _ a t e (h.at s p)

  -- The same before, after a return and after a raise.
  abbrev pub Keeps : (S → Type 0) → Exec S A → Type 0
  Keeps P m = Triple P m (λ _. P) P

  Ensures-state : (P : S → Type 0) (r : Result A) (t : S) → Ensures (λ _. P) P (r, t) → P t
  Ensures-state P (ok a) t h = h
  Ensures-state P (err e) t h = h

  pub Triple-state :
      {P Q : S → Type 0} {m : Exec S A} (s : S) → Triple P m (λ _. Q) Q → P s → Q (m s).1
  Triple-state {Q} {m} s h p = Ensures-state Q (m s).0 (m s).1 (h.at s p)

module _ {S A : Type 0} {E : S → Type 0} where
  pub Triple-pure : {Q : A → S → Type 0} (a : A) → Triple (Q a) (pure a) Q E
  unfolding pure
  Triple-pure a = record { at = λ s h. h }

  pub Triple-raise : {Q : A → S → Type 0} (e : Error) → Triple E (raise e) Q E
  unfolding raise
  Triple-raise e = record { at = λ s h. h }

module _ {S A : Type 0} (P : S → Type 0) where
  pub Ensures-lift : (r : Result A) (s : S) → P s → Ensures (λ _. P) P (r, s)
  Ensures-lift (ok a) s h = h
  Ensures-lift (err e) s h = h

module _ {S A : Type 0} {P : S → Type 0} where
  pub Keeps-lift : (r : Result A) → Keeps P (lift r)
  unfolding lift
  Keeps-lift r = record { at = λ s h. Ensures-lift P r s h }

  pub Keeps-pure : (a : A) → Keeps P (pure a)
  unfolding pure
  Keeps-pure a = record { at = λ s h. h }

module _ {S : Type 0} {P : S → Type 0} where
  pub Keeps-demand : (b : Bool) (message : String) → Keeps P (demand b message)
  unfolding demand
  Keeps-demand true message = record { at = λ s h. h }
  Keeps-demand false message = record { at = λ s h. h }

module _ {S A B : Type 0} {E : S → Type 0} {R : A → S → Type 0} {Q : B → S → Type 0} where
  continue-Ensures :
      (r : Result A) (f : A → Exec S B) (t : S)
      → ((a : A) → Triple (R a) (f a) Q E)
      → Ensures R E (r, t)
      → Ensures Q E (continue r f t)
  unfolding continue
  continue-Ensures (ok a) f t rest h = (rest a).at t h
  continue-Ensures (err e) f t rest h = h

module _ {S A B : Type 0} {P E : S → Type 0} {R : A → S → Type 0} {Q : B → S → Type 0} where
  pub Triple-bind :
      {m : Exec S A} {f : A → Exec S B}
      → Triple P m R E
      → ((a : A) → Triple (R a) (f a) Q E)
      → Triple P (m >>= f) Q E
  unfolding ◌>>=◌
  Triple-bind {m} {f} first rest = record {
    at = λ s h. continue-Ensures (m s).0 f (m s).1 rest (first.at s h);
  }

module _ {S A : Type 0} {P E : S → Type 0} {Q : A → S → Type 0} where
  pub Triple-if :
      (b : Bool) {m n : Exec S A}
      → Triple P m Q E
      → Triple P n Q E
      → Triple P (if b then m else n) Q E
  Triple-if true hm hn = hm
  Triple-if false hm hn = hn

module _ {S A : Type 0} {E E' : S → Type 0} {Q Q' : A → S → Type 0} where
  Ensures-weaken :
      (r : Result A × S)
      → ((a : A) (s : S) → Q a s → Q' a s)
      → ((s : S) → E s → E' s)
      → Ensures Q E r
      → Ensures Q' E' r
  Ensures-weaken (ok a, s) q e h = q a s h
  Ensures-weaken (err x, s) q e h = e s h

  pub Triple-weaken :
      {P : S → Type 0} {m : Exec S A}
      → ((a : A) (s : S) → Q a s → Q' a s)
      → ((s : S) → E s → E' s)
      → Triple P m Q E
      → Triple P m Q' E'
  Triple-weaken {m} q e h = record { at = λ s p. Ensures-weaken (m s) q e (h.at s p) }

module _ {S A : Type 0} (E : S → Type 0) (Q R : A → S → Type 0) where
  Ensures-both :
      (r : Result A) (t : S)
      → ((a : A) → r ≡ ok a → Q a t)
      → Ensures R E (r, t)
      → Ensures (λ a s. Q a s × R a s) E (r, t)
  Ensures-both (ok a) t q h = (q a refl, h)
  Ensures-both (err e) t q h = h

module _ {S A : Type 0} {P E : S → Type 0} {Q R : A → S → Type 0} where
  -- What is known of each return, beside a triple.
  pub Triple-return :
      (m : Exec S A)
      → ((s : S) (a : A) (t : S) → P s → m s ≡ (ok a, t) → Q a t)
      → Triple P m R E
      → Triple P m (λ a s. Q a s × R a s) E
  Triple-return m q h = record {
    at = λ s p.
        Ensures-both E Q R (m s).0 (m s).1 (λ a e. q s a (m s).1 p (λ i. (e i, (m s).1)))
          (h.at s p);
  }

module _ {S : Type 0} {P : S → Type 0} where
  pub demand-Triple :
      (b : Bool) (message : String) → Triple P (demand b message) (λ _ s. P s × (b ≡ true)) P
  unfolding demand
  demand-Triple true message = record { at = λ s h. (h, refl) }
  demand-Triple false message = record { at = λ s h. h }

module _ {S A : Type 0} {P P' E : S → Type 0} {Q : A → S → Type 0} where
  pub Triple-before : {m : Exec S A} → ((s : S) → P' s → P s) → Triple P m Q E → Triple P' m Q E
  Triple-before q h = record { at = λ s p. h.at s (q s p) }

module _ {S A : Type 0} where
  Ensures-any : (F : Type 0) (r : Result A × S) → F → Ensures {S = S} (λ _ _. F) (λ _. Unit {0}) r
  Ensures-any F (ok a, t) f = f
  Ensures-any F (err e, t) f = tt

  -- Of an action of the system no more is known than what its state has no part in.
  pub Triple-any : {F : Type 0} (m : Exec S A) → Triple (λ _. F) m (λ _ _. F) (λ _. Unit {0})
  Triple-any {F} m = record { at = λ s f. Ensures-any F (m s) f }

  pub lift-Triple :
      {P : S → Type 0} (r : Result A) → Triple P (lift r) (λ a s. P s × (r ≡ ok a)) (λ _. Unit {0})
  unfolding lift
  lift-Triple (ok a) = record { at = λ s h. (h, refl) }
  lift-Triple (err e) = record { at = λ s h. tt }
