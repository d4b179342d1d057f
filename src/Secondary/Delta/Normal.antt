-- ===== src/Secondary/Delta/Normal.antt =====
-- What `normalize_delta` leaves of a delta that spans several vsync periods.
use native.Mathlib.Nat.{div-add-mod, add-mul, mod-lt}
use software_vsync_modulatio.Prelude.{
  ℕ, suc, ◌+◌, ◌*◌, ◌/◌, ◌%◌, ◌≤◌, ◌<◌, ◌≡◌, some, none, arith, ap, ◌≢◌, ltb, if◌then◌else◌,
}
use software_vsync_modulatio.Prelude.Int.{ℤ, pos, negsuc, pos_part, neg_part, ◌+ℤ◌, ◌-ℤ◌, int_laws}
use software_vsync_modulatio.Prelude.Signed.{magnitude, neg_ℕ}
use software_vsync_modulatio.Secondary.Delta.{normalize_delta, fold_in, past_midpoint}

rem_self : (a : ℕ) → 0 < a → a % a ≡ 0
rem_self a h = grind arith

fold_nonneg :
    (n a : ℕ) → 0 < a → normalize_delta (pos n) (pos a) ≡ some (past_midpoint (pos (n % a)) (pos a))
unfolding normalize_delta fold_in past_midpoint ◌-ℤ◌
fold_nonneg n a h = ground (arith, rem_self a h)

fold_neg : (n a : ℕ) → 0 < a → normalize_delta (negsuc n) (pos a) ≡ some (neg_ℕ (suc n % a))
unfolding normalize_delta fold_in past_midpoint
fold_neg n a h = ground arith

-- The remainder of a non-negative delta, moved to the nearer side.
nearer : ℕ → ℕ → ℤ
nearer m a = past_midpoint (pos m) (pos a)

nearer_bound : (m a : ℕ) → m < a → magnitude (nearer m a) + magnitude (nearer m a) ≤ a
unfolding nearer past_midpoint ◌-ℤ◌
nearer_bound m a h = ground arith

-- The periods taken off beside `n / a`.
abbrev extra : ℕ → ℕ → ℕ
extra m a = if ltb (a / 2) m then 1 else 0

nearer_whole : (m a : ℕ) → m < a → pos m ≡ nearer m a +ℤ pos (extra m a * a)
unfolding nearer past_midpoint ◌-ℤ◌ ◌+ℤ◌
nearer_whole m a h = ground arith

add_whole :
    (r : ℤ) (m n k e a : ℕ)
    → pos m ≡ r +ℤ pos (e * a)
    → n ≡ m + k * a
    → pos n ≡ r +ℤ pos ((e + k) * a)
add_whole r m n k e a p q = omega (int_laws, ap pos_part p, ap neg_part p, add-mul e k a)

-- For a delta that is not negative and a positive period, normalising ends, takes off whole
-- periods only, and leaves at most half a period.
pub normalize_delta-IsNearest :
    (n a : ℕ)
    → 0 < a
    → (r : ℤ) × (k : ℕ) × (normalize_delta (pos n) (pos a) ≡ some r)
      × (pos n ≡ r +ℤ pos (k * a))
      × (magnitude r + magnitude r ≤ a)
unfolding nearer
normalize_delta-IsNearest n a h = (
  nearer (n % a) a,
  extra (n % a) a + n / a,
  fold_nonneg n a h,
  add_whole (nearer (n % a) a) (n % a) n (n / a) (extra (n % a) a) a
      (nearer_whole (n % a) a (omega arith)) (grind (arith, div-add-mod)),
  nearer_bound (n % a) a (omega arith),
)

-- For a positive period and a negative delta more than half a period past a whole number of
-- periods, the normalised delta is farther from alignment than its other neighbour one period
-- later.
pub normalize_delta_negative :
    (n a : ℕ)
    → 0 < a
    → a / 2 < suc n % a
    → (r : ℤ) × (normalize_delta (negsuc n) (pos a) ≡ some r)
      × (a < magnitude r + magnitude r)
      × (magnitude (r +ℤ pos a) < magnitude r)
unfolding ◌+ℤ◌
normalize_delta_negative n a h p =
    (neg_ℕ (suc n % a), fold_neg n a h, ground arith, ground (arith, mod-lt (suc n) h))

-- A measured period of zero makes the normalisation of every delta but zero a division by zero.
pub normalize_delta_zero : (d : ℤ) → d ≢ pos 0 → normalize_delta d (pos 0) ≡ none
unfolding normalize_delta fold_in
normalize_delta_zero d h = ground arith
