-- ===== src/Common/Integers.antt =====
-- Go's signed integers, without a bound.
use Prim.Native.Nat.{ℕ}
use mathlib.Core.Path.{◌≡◌}
use mathlib.Core.Logic.{◌↔◌}
use mathlib.Core.Bool.{Bool, true, false}
use native.Mathlib.Omega.{arith}
use ai_etl_platform.Common.Tests.{ltb, ◌==◌}

pub data ℤ : Type 0 where
  pos : ℕ → ℤ
  negsuc : ℕ → ℤ

abbrev pub int_lt : ℤ → ℤ → Bool
int_lt (pos m) (pos n) = ltb m n
int_lt (pos m) (negsuc n) = false
int_lt (negsuc m) (pos n) = true
int_lt (negsuc m) (negsuc n) = ltb n m

abbrev pub int_eq : ℤ → ℤ → Bool
int_eq (pos m) (pos n) = m == n
int_eq (pos m) (negsuc n) = false
int_eq (negsuc m) (pos n) = false
int_eq (negsuc m) (negsuc n) = m == n

pub int_eq_iff : (a b : ℤ) → (int_eq a b ≡ true) ↔ (a ≡ b)
int_eq_iff (pos m) (pos n) = (λ h. ground (arith, h), λ h. ground (arith, h))
int_eq_iff (pos m) (negsuc n) = (λ h. ground (arith, h), λ h. ground (arith, h))
int_eq_iff (negsuc m) (pos n) = (λ h. ground (arith, h), λ h. ground (arith, h))
int_eq_iff (negsuc m) (negsuc n) = (λ h. ground (arith, h), λ h. ground (arith, h))
