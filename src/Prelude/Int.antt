-- ===== src/Prelude/Int.antt =====
-- `i64` values as integers. The program stores, copies and compares them; it does no arithmetic
-- on them that could overflow.
use Prim.Native.Nat.{ℕ}
use mathlib.Core.Bool.{Bool, true, false}
use defing.Prelude.Tests.{ltb, ◌==◌}

-- `negsuc n` is -(n + 1).
pub data ℤ : Type 0 where
  pos : ℕ → ℤ
  negsuc : ℕ → ℤ

unfoldable pub int_eq : ℤ → ℤ → Bool
int_eq (pos m) (pos n) = m == n
int_eq (pos m) (negsuc n) = false
int_eq (negsuc m) (pos n) = false
int_eq (negsuc m) (negsuc n) = m == n

-- `x > 0`
unfoldable pub int_positive : ℤ → Bool
int_positive (pos n) = ltb 0 n
int_positive (negsuc n) = false

-- `x.max(0) as u64`
unfoldable pub clamp_u64 : ℤ → ℕ
clamp_u64 (pos n) = n
clamp_u64 (negsuc n) = 0

-- `a < b`
unfoldable pub int_lt : ℤ → ℤ → Bool
int_lt (pos m) (pos n) = ltb m n
int_lt (pos m) (negsuc n) = false
int_lt (negsuc m) (pos n) = true
int_lt (negsuc m) (negsuc n) = ltb n m
