-- ===== src/Base/Result.antt =====
-- Python's exceptions as values: what `raise` carries, and code that returns or raises.
pub mod Returns
use mathlib.Core.Path.{◌≡◌, refl, ap, ◌∙◌}
use mathlib.Core.Bool.{Bool, true, false}
use Prim.Native.String.{String}

-- `budget_exhausted` and `incomplete` are the subclasses of RuntimeError that the minimizer and the
-- release audit declare. `key_error` and `type_error` come from a lookup in a value of another shape, `os_error` from the system.
pub data Error : Type 0 where
  runtime_error : String → Error
  budget_exhausted : String → Error
  incomplete : String → Error
  key_error : String → Error
  type_error : Error
  os_error : String → Error

pub data Result {ℓ} (A : Type ℓ) : Type ℓ where
  ok : A → Result A
  err : Error → Result A

-- require(value, message)
unfoldable pub require : Bool → String → Result (Unit {0})
require true message = ok tt
require false message = err (runtime_error message)

-- `left and right`, where evaluating either may raise
unfoldable pub both : Result Bool → Result Bool → Result Bool
both (ok true) right = right
both (ok false) right = ok false
both (err e) right = err e

infixl 5 ◌>>=◌ ◌>>◌
-- opening this opens `require` and `both` too
unfoldable pub ◌>>=◌ {ℓ κ} : {A : Type ℓ} {B : Type κ} → Result A → (A → Result B) → Result B
unfolding require both
ok a >>= next = next a
err e >>= next = err e

abbrev pub ◌>>◌ {ℓ} : {B : Type ℓ} → Result (Unit {0}) → Result B → Result B
guard >> next = guard >>= λ _. next

-- Code that returned: its first part did, and then the rest.
pub >>=-eq-ok {ℓ κ} :
    {A : Type ℓ} {B : Type κ} (first : Result A) (rest : A → Result B) {y : B}
    → (first >>= rest) ≡ ok y
    → (x : A) × (first ≡ ok x) × (rest x ≡ ok y)
unfolding ◌>>=◌
>>=-eq-ok (ok x) rest returned = (x, refl, returned)
>>=-eq-ok (err e) rest returned = cc

-- Where the first part returned, the rest runs.
pub bind-ok {ℓ κ} :
    {A : Type ℓ} {B : Type κ} {m : Result A} {a : A} (f : A → Result B) {r : Result B}
    → m ≡ ok a
    → f a ≡ r
    → (m >>= f) ≡ r
unfolding ◌>>=◌
bind-ok f e h = ap (λ m. m >>= f) e ∙ h

-- What a passed guard and the code behind it give.
pub require-eq-ok {ℓ} :
    {B : Type ℓ} (b : Bool) (message : String) (k : Result B) {x : B}
    → (require b message >> k) ≡ ok x
    → (b ≡ true) × (k ≡ ok x)
unfolding ◌>>=◌
require-eq-ok true message k h = (refl, h)
require-eq-ok false message k h = cc

pub both-eq-true : (l r : Result Bool) → both l r ≡ ok true → (l ≡ ok true) × (r ≡ ok true)
unfolding both
both-eq-true (ok true) r h = (refl, h)
both-eq-true (ok false) r h = cc
both-eq-true (err e) r h = cc

-- Code whose rest is alike on what the first part returns.
pub bind-eq {ℓ κ} :
    {A : Type ℓ} {B : Type κ} (m : Result A) (f g : A → Result B)
    → ((a : A) → m ≡ ok a → f a ≡ g a)
    → (m >>= f) ≡ (m >>= g)
unfolding ◌>>=◌
bind-eq (ok a) f g h = h a refl
bind-eq (err e) f g h = refl
