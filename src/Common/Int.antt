-- ===== src/Common/Int.antt =====
-- The C types `long` and `int`, read as integers, and the casts of the modelled code.
use Prim.Native.Nat.{ℕ, zero, suc, ◌+◌, ◌-◌, ◌%◌, ◌^◌}
use mathlib.Core.Bool.{Bool, true, false}
use cosmo_rt.Common.Tests.{◌==◌, ltb}

-- `negsuc n` is -(n + 1).
pub data ℤ : Type 0 where
  pos : ℕ → ℤ
  negsuc : ℕ → ℤ

abbrev pub is_neg : ℤ → Bool
is_neg (pos n) = false
is_neg (negsuc n) = true

abbrev pub is_minus_one : ℤ → Bool
is_minus_one (pos n) = false
is_minus_one (negsuc n) = n == 0

-- `(uint32_t)x` of a `long`.
abbrev pub to_u32 : ℤ → ℕ
to_u32 (pos n) = n % 2 ^ 32
to_u32 (negsuc n) = 2 ^ 32 - 1 - n % 2 ^ 32

-- `x++` and `x--`.
abbrev pub up : ℤ → ℤ
up (pos n) = pos (n + 1)
up (negsuc zero) = pos 0
up (negsuc (suc n)) = negsuc n

abbrev pub down : ℤ → ℤ
down (pos zero) = negsuc 0
down (pos (suc n)) = pos n
down (negsuc n) = negsuc (suc n)

-- `x > 0`
abbrev pub is_positive : ℤ → Bool
is_positive (pos zero) = false
is_positive (pos (suc n)) = true
is_positive (negsuc n) = false

-- `x < k`
abbrev pub is_below : ℤ → (k : ℕ) → Bool
is_below (pos n) k = ltb n k
is_below (negsuc n) k = true

abbrev pub is_same : ℤ → ℤ → Bool
is_same (pos m) (pos n) = m == n
is_same (pos m) (negsuc n) = false
is_same (negsuc m) (pos n) = false
is_same (negsuc m) (negsuc n) = m == n

-- The rounds of a loop that counts from 0 up to `x`, or from `x` down to 0.
abbrev pub rounds : ℤ → ℕ
rounds (pos n) = n
rounds (negsuc n) = 0
