-- ===== src/Base/Exec.antt =====
-- Code that changes a state and may raise. What was written before a raise stays written, so the
-- state comes back beside the error too.
pub mod Triple
use mathlib.Core.Path.{◌≡◌, refl}
use mathlib.Core.Bool.{Bool, true, false}
use Prim.Native.String.{String}
use ckb_vm_sail_verify.Base.Result.{Result, ok, err, Error, require}

abbrev pub Exec : Type 0 → Type 0 → Type 0
Exec S A = S → Result A × S

unfoldable pub pure : {S A : Type 0} → A → Exec S A
pure a s = (ok a, s)

unfoldable pub raise : {S A : Type 0} → Error → Exec S A
raise e s = (err e, s)

unfoldable pub lift : {S A : Type 0} → Result A → Exec S A
lift r s = (r, s)

-- require(value, message)
unfoldable pub demand : {S : Type 0} → Bool → String → Exec S (Unit {0})
unfolding require
demand b message s = (require b message, s)

unfoldable pub continue : {S A B : Type 0} → Result A → (A → Exec S B) → Exec S B
continue (ok a) f s = f a s
continue (err e) f s = (err e, s)

infixl 5 ◌>>=◌ ◌>>◌
-- opening this opens the actions above too
unfoldable pub ◌>>=◌ : {S A B : Type 0} → Exec S A → (A → Exec S B) → Exec S B
unfolding pure raise lift demand continue
◌>>=◌ m f s = let (r, s') = m s in continue r f s'

abbrev pub ◌>>◌ : {S B : Type 0} → Exec S (Unit {0}) → Exec S B → Exec S B
m >> k = m >>= λ _. k

-- A run that returned: its first part returned too, and where.
pub >>=-eq-ok :
    {S A B : Type 0} (m : Exec S A) (f : A → Exec S B) (s : S) {b : B} {t : S}
    → (m >>= f) s ≡ (ok b, t)
    → (a : A) × (u : S) × (m s ≡ (ok a, u)) × (f a u ≡ (ok b, t))
unfolding ◌>>=◌
>>=-eq-ok {S} {A} {B} m f s {b} {t} h = go (m s).0 (m s).1 refl h
  where
    go :
        (r : Result A) (u : S)
        → m s ≡ (r, u)
        → continue r f u ≡ (ok b, t)
        → (a : A) × (u' : S) × (m s ≡ (ok a, u')) × (f a u' ≡ (ok b, t))
    go (ok a) u e k = (a, u, e, k)
    go (err x) u e k = cc

-- What a step that leaves the state alone gives to the run behind it.
pub lift-eq-ok :
    {S A B : Type 0} (r : Result A) (f : A → Exec S B) (s : S) {b : B} {t : S}
    → (lift r >>= f) s ≡ (ok b, t)
    → (a : A) × (r ≡ ok a) × (f a s ≡ (ok b, t))
unfolding ◌>>=◌
lift-eq-ok (ok a) f s h = (a, refl, h)
lift-eq-ok (err e) f s h = cc

pub demand-eq-ok :
    {S B : Type 0} (c : Bool) (message : String) (k : Exec S B) (s : S) {b : B} {t : S}
    → (demand c message >> k) s ≡ (ok b, t)
    → (c ≡ true) × (k s ≡ (ok b, t))
unfolding ◌>>=◌ require
demand-eq-ok true message k s h = (refl, h)
demand-eq-ok false message k s h = cc
