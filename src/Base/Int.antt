-- ===== src/Base/Int.antt =====
-- Python's unbounded integers, as far as the scripts compare them.
use Prim.Native.Nat.{ℕ}
use mathlib.Core.Bool.{Bool, false}
use ckb_vm_sail_verify.Base.Tests.{◌==◌}

-- `negsuc n` is -(n + 1).
pub data ℤ : Type 0 where
  pos : ℕ → ℤ
  negsuc : ℕ → ℤ

abbrev pub int_eq : ℤ → ℤ → Bool
int_eq (pos a) (pos b) = a == b
int_eq (negsuc a) (negsuc b) = a == b
int_eq _ _ = false
