-- ===== src/Prelude/Int.antt =====
-- Go's `int`, with its tests. `negsuc n` is -(n + 1).
use hen_kai_pan.Prelude.Tests.{ltb, ◌==◌, if◌then◌else◌}
use Prim.Native.Nat.{ℕ, suc, zero, ◌-◌, ◌*◌, ◌%◌, ◌^◌, ◌<◌}
use mathlib.Core.Path.{◌≡◌, refl}
use mathlib.Core.Bool.{Bool, true, false}
use native.Mathlib.Omega.{arith}

pub data ℤ : Type 0 where
  pos : ℕ → ℤ
  negsuc : ℕ → ℤ

abbrev pub neg_ℕ : ℕ → ℤ
neg_ℕ zero = pos 0
neg_ℕ (suc n) = negsuc n

abbrev pub neg : ℤ → ℤ
neg (pos n) = neg_ℕ n
neg (negsuc n) = pos (suc n)

abbrev pub lt_int : ℤ → ℤ → Bool
lt_int (pos a) (pos b) = ltb a b
lt_int (pos a) (negsuc b) = false
lt_int (negsuc a) (pos b) = true
lt_int (negsuc a) (negsuc b) = ltb b a

abbrev pub eq_int : ℤ → ℤ → Bool
eq_int (pos a) (pos b) = a == b
eq_int (pos a) (negsuc b) = false
eq_int (negsuc a) (pos b) = false
eq_int (negsuc a) (negsuc b) = a == b

-- The 64 bits of a signed number.
wrap_neg : ℕ → ℤ
wrap_neg m = if ltb (2 ^ 63) m then pos (2 ^ 64 - m) else neg_ℕ m

wrap_pos : ℕ → ℤ
wrap_pos m = if ltb m (2 ^ 63) then pos m else neg_ℕ (2 ^ 64 - m)

-- The product of two `int`s, which wraps around.
unfoldable pub mul_int : ℤ → ℤ → ℤ
unfolding wrap_neg wrap_pos
mul_int (pos a) (pos b) = wrap_pos ((a * b) % 2 ^ 64)
mul_int (pos a) (negsuc b) = wrap_neg ((a * suc b) % 2 ^ 64)
mul_int (negsuc a) (pos b) = wrap_neg ((suc a * b) % 2 ^ 64)
mul_int (negsuc a) (negsuc b) = wrap_pos ((suc a * suc b) % 2 ^ 64)

-- Without an overflow, the product is the product.
pub mul_int_small : (a b : ℕ) → a * b < 2 ^ 63 → mul_int (pos a) (pos b) ≡ pos (a * b)
unfolding mul_int wrap_pos
mul_int_small a b h = ground (arith)

-- `x >= 0`
abbrev pub is_nonneg : ℤ → Bool
is_nonneg (pos n) = true
is_nonneg (negsuc n) = false

pub lt_int-eq_int : (a b : ℤ) → lt_int a b ≡ true → lt_int b a ≡ false
lt_int-eq_int (pos a) (pos b) h = ground arith
lt_int-eq_int (pos a) (negsuc b) h = ground arith
lt_int-eq_int (negsuc a) (pos b) h = ground arith
lt_int-eq_int (negsuc a) (negsuc b) h = ground arith

-- Of two integers that differ, one is below the other.
pub lt_int_total : (a b : ℤ) → eq_int a b ≡ false → lt_int a b ≡ false → lt_int b a ≡ true
lt_int_total (pos a) (pos b) h k = ground arith
lt_int_total (pos a) (negsuc b) h k = ground arith
lt_int_total (negsuc a) (pos b) h k = ground arith
lt_int_total (negsuc a) (negsuc b) h k = ground arith

pub eq_int_comm : (a b : ℤ) → eq_int a b ≡ eq_int b a
eq_int_comm (pos a) (pos b) = ground arith
eq_int_comm (pos a) (negsuc b) = refl
eq_int_comm (negsuc a) (pos b) = refl
eq_int_comm (negsuc a) (negsuc b) = ground arith

pub eq_int_refl : (a : ℤ) → eq_int a a ≡ true
eq_int_refl (pos a) = ground arith
eq_int_refl (negsuc a) = ground arith
