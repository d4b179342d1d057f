-- ===== src/Prelude/Signed.antt =====
-- Signed machine integers: sign and magnitude, the truncating `/` and `%` of C++, and the
-- values that 32-bit and 64-bit patterns stand for.
use software_vsync_modulatio.Prelude.Tests.{ltb, if◌then◌else◌, ◌==◌}
use Prim.Native.Nat.{ℕ, zero, suc, ◌+◌, ◌-◌, ◌/◌, ◌%◌, ◌^◌, ◌<◌}
use mathlib.Core.Path.{◌≡◌}
use mathlib.Core.Bool.{Bool}
use native.Mathlib.Omega.{arith}
use software_vsync_modulatio.Prelude.Int.{ℤ, pos, negsuc, pos_part, neg_part, ◌-ℤ◌}

-- -n
abbrev pub neg_ℕ : ℕ → ℤ
neg_ℕ zero = pos 0
neg_ℕ (suc n) = negsuc n

abbrev pub neg : ℤ → ℤ
neg (pos n) = neg_ℕ n
neg (negsuc n) = pos (suc n)

-- `labs`, `abs`
abbrev pub magnitude : ℤ → ℕ
magnitude (pos n) = n
magnitude (negsuc n) = suc n

infix 50 ◌==ℤ◌
abbrev pub ◌==ℤ◌ : ℤ → ℤ → Bool
◌==ℤ◌ a b = pos_part a + neg_part b == pos_part b + neg_part a

-- `a / b` and `a % b` of C++ at a positive `b`: towards zero, with the sign of `a`.
abbrev pub quot_ℕ : ℤ → ℕ → ℤ
quot_ℕ (pos n) b = pos (n / b)
quot_ℕ (negsuc n) b = neg_ℕ (suc n / b)

abbrev pub rem_ℕ : ℤ → ℕ → ℤ
rem_ℕ (pos n) b = pos (n % b)
rem_ℕ (negsuc n) b = neg_ℕ (suc n % b)

-- `a / b` and `a % b` of C++; a divisor of zero is for the caller to rule out.
abbrev pub quot : ℤ → ℤ → ℤ
quot a (pos b) = quot_ℕ a b
quot a (negsuc b) = neg (quot_ℕ a (suc b))

abbrev pub rem : ℤ → ℤ → ℤ
rem a (pos b) = rem_ℕ a b
rem a (negsuc b) = rem_ℕ a (suc b)

-- The value of an `int64_t` and of an `int` by its bit pattern.
abbrev pub signed64 : ℕ → ℤ
signed64 w = if ltb w (2 ^ 63) then pos w else negsuc (2 ^ 64 - w - 1)

abbrev pub signed32 : ℕ → ℤ
signed32 w = if ltb w (2 ^ 31) then pos w else negsuc (2 ^ 32 - w - 1)

-- A difference of two `uint64_t` read as an `int64_t` is the true difference, if that fits.
pub signed64-sub :
    (a b : ℕ) → a < 2 ^ 63 → b < 2 ^ 63 → signed64 ((a + 2 ^ 64 - b) % 2 ^ 64) ≡ pos a -ℤ pos b
unfolding ◌-ℤ◌
signed64-sub a b ha hb = ground arith
