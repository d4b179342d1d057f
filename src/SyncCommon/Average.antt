-- ===== src/SyncCommon/Average.antt =====
-- `find_avg` telescopes: it is the whole span over the number of intervals.
use native.Mathlib.Nat.{zero-add}
use software_vsync_modulatio.Prelude.{
  ℕ, zero, suc, ◌+◌, ◌-◌, ◌/◌, ◌%◌, ◌^◌, ◌≤◌, ◌<◌, ◌≡◌, refl, List, get_or, arith, ap, ◌∙◌,
}
use software_vsync_modulatio.Prelude.Int.{pos}
use software_vsync_modulatio.SyncCommon.{sum_intervals, find_avg}

abbrev pub at : List ℕ → ℕ → ℕ
at xs i = get_or xs i 0

-- The loop keeps `acc + va[0]` equal to `va[i]` modulo 2 ^ 32.
sum_intervals-mod :
    (va : List ℕ) (first : ℕ) (left i acc : ℕ)
    → ((j : ℕ) → at va j < 2 ^ 64)
    → (acc + first) % 2 ^ 32 ≡ at va i % 2 ^ 32
    → (sum_intervals va left i acc + first) % 2 ^ 32 ≡ at va (i + left) % 2 ^ 32
unfolding sum_intervals
sum_intervals-mod va first zero i acc u h = h ∙ ap (λ (k : ℕ). at va k % 2 ^ 32) (omega arith)
sum_intervals-mod va first (suc left) i acc u h =
    sum_intervals-mod va first left (i + 1) ((acc + (at va (i + 1) + 2 ^ 64 - at va i)) % 2 ^ 32) u
      (omega (arith, h, u i, u (i + 1)))
    ∙ ap (λ (k : ℕ). at va k % 2 ^ 32) (omega arith)

sum_intervals-lt :
    (va : List ℕ) (left i acc : ℕ) → acc < 2 ^ 32 → sum_intervals va left i acc < 2 ^ 32
unfolding sum_intervals
sum_intervals-lt va zero i acc h = h
sum_intervals-lt va (suc left) i acc h = sum_intervals-lt va left (i + 1) _ (omega arith)

sum_intervals-eq :
    (va : List ℕ) (n : ℕ)
    → ((j : ℕ) → at va j < 2 ^ 64)
    → at va 0 ≤ at va n
    → at va n - at va 0 < 2 ^ 31
    → sum_intervals va n 0 0 ≡ at va n - at va 0
sum_intervals-eq va n u le small = omega (
  arith,
  sum_intervals-mod va (at va 0) n 0 0 u (omega arith),
  sum_intervals-lt va n 0 0 (omega arith),
  ap (λ (k : ℕ). at va k) (zero-add n),
)

-- For at least two 64-bit timestamps whose span fits an int, the average is the span over the
-- number of intervals, rounded down.
pub find_avg-eq-span :
    (va : List ℕ) (sz : ℕ)
    → 2 ≤ sz
    → ((j : ℕ) → at va j < 2 ^ 64)
    → at va 0 ≤ at va (sz - 1)
    → at va (sz - 1) - at va 0 < 2 ^ 31
    → find_avg va sz ≡ pos ((at va (sz - 1) - at va 0) / (sz - 1))
unfolding find_avg
find_avg-eq-span va sz h u le small = rw (sum_intervals-eq va (sz - 1) u le small) (ground arith)

-- Of one timestamp there is no interval: the average is zero.
pub find_avg_single : (va : List ℕ) → find_avg va 1 ≡ pos 0
unfolding find_avg sum_intervals
find_avg_single va = refl
