-- ===== src/Base/Result/Returns.antt =====
-- What holds of the value of code that returns, with a rule for each way to build such code.
use mathlib.Core.Path.{◌≡◌, refl, subst}
use mathlib.Core.Bool.{Bool, true, false}
use Prim.Native.String.{String}
use ckb_vm_sail_verify.Base.Tests.{if◌then◌else◌}
use ckb_vm_sail_verify.Base.Result.{Result, ok, err, Error, require, ◌>>=◌, ◌>>◌}

-- If `m` returns, then its value satisfies `Q`.
pub record Returns {ℓ κ} {A : Type ℓ} (Q : A → Type κ) (m : Result A) : Type (ℓ ⊔ κ) where
  pub at : (a : A) → m ≡ ok a → Q a

pub ok-injective {ℓ} : {A : Type ℓ} (a b : A) → ok a ≡ ok b → a ≡ b
ok-injective a b h = cc

module _ {ℓ κ} {A : Type ℓ} {Q : A → Type κ} where
  pub Returns-ok : (a : A) → Q a → Returns Q (ok a)
  Returns-ok a q = record { at = λ b e. subst Q (ok-injective a b e) q }

  pub Returns-err : (e : Error) → Returns Q (err e)
  Returns-err e = record { at = λ b h. absurd (cc h) }

  pub Returns-self : (m : Result A) → ((a : A) → m ≡ ok a → Q a) → Returns Q m
  Returns-self m h = record { at = h }

module _ {ℓ κ μ} {A : Type ℓ} {B : Type κ} {Q : B → Type μ} where
  -- The rest may use what the first part returned.
  pub Returns-bind :
      {m : Result A} {f : A → Result B}
      → ((a : A) → m ≡ ok a → Returns Q (f a))
      → Returns Q (m >>= f)
  unfolding ◌>>=◌
  Returns-bind {m} {f} h = record { at = λ b e. go m refl b e }
    where
      go : (r : Result A) → m ≡ r → (b : B) → (r >>= f) ≡ ok b → Q b
      go (ok a) e b k = (h a e).at b k
      go (err x) e b k = absurd (cc k)

module _ {κ μ} {B : Type κ} {Q : B → Type μ} where
  -- The rest may use that the guard passed.
  pub Returns-require :
      {b : Bool} (message : String) {k : Result B}
      → (b ≡ true → Returns Q k)
      → Returns Q (require b message >> k)
  unfolding ◌>>=◌
  Returns-require {b = true} message h = h refl
  Returns-require {b = false} message h = Returns-err _

module _ {ℓ κ} {A : Type ℓ} {Q : A → Type κ} where
  pub Returns-if :
      (b : Bool) {m n : Result A}
      → (b ≡ true → Returns Q m)
      → (b ≡ false → Returns Q n)
      → Returns Q (if b then m else n)
  Returns-if true hm hn = hm refl
  Returns-if false hm hn = hn refl

pub require-eq-true :
    (b : Bool) (message : String) (u : Unit {0}) → require b message ≡ ok u → b ≡ true
unfolding require
require-eq-true true message u h = refl
require-eq-true false message u h = cc
