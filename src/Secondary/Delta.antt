-- ===== src/Secondary/Delta.antt =====
-- `find_minimum_delta` and `normalize_delta` of swgenlock/secondary.cpp.
pub mod Minimum
pub mod Normal
use software_vsync_modulatio.Prelude.{
  ℕ, zero, suc, ◌+◌, ◌-◌, ◌%◌, ◌^◌, Bool, Option, none, some, List, ltb, if◌then◌else◌, get_or,
  ◌||◌, ◌==◌,
}
use software_vsync_modulatio.Prelude.Int.{ℤ, pos, ltb_ℤ, ◌-ℤ◌}
use software_vsync_modulatio.Prelude.Signed.{signed64, magnitude, quot, rem, ◌==ℤ◌}

-- The running minimum: `delta` and `*matching_timestamp`.
pub record Nearest : Type 0 where
  pub delta : ℤ
  pub matching : ℕ

abbrev pub long_max : ℤ
long_max = pos (2 ^ 63 - 1)

-- `(uint64_t)secondary - (uint64_t)primary` stored in an `int64_t`
unfoldable pub difference : ℕ → ℕ → ℤ
difference s p = signed64 ((s + 2 ^ 64 - p) % 2 ^ 64)

-- The body of the inner loop.
unfoldable pub consider : ℕ → ℕ → Nearest → Nearest
consider s p best =
    if ltb (magnitude (difference s p)) (magnitude best.delta)
    then record { delta = difference s p; matching = p }
    else best

-- The inner loop, with `j` running from `left - 1` down to 0.
unfoldable pub scan_primary : List ℕ → ℕ → ℕ → Nearest → Nearest
scan_primary primary s zero best = best
scan_primary primary s (suc j) best =
    scan_primary primary s j (consider s (get_or primary j 0) best)

-- The outer loop, with `i` running from `left - 1` down to 0.
unfoldable pub scan_secondary : List ℕ → ℕ → List ℕ → ℕ → Nearest → Nearest
scan_secondary primary n secondary zero best = best
scan_secondary primary n secondary (suc i) best =
    scan_secondary primary n secondary i (scan_primary primary (get_or secondary i 0) n best)

-- `matching` is what `*matching_timestamp` holds before the call.
unfoldable pub find_minimum_delta : List ℕ → List ℕ → ℕ → ℕ → ℕ → Nearest
find_minimum_delta primary secondary timestamps timestamps_from_primary matching =
    scan_secondary primary timestamps_from_primary secondary timestamps
      (record { delta = long_max; matching = matching })

-- `none` is the division by zero of `%=`.
unfoldable pub fold_in : ℤ → ℤ → Option ℤ
fold_in delta avg = if avg ==ℤ pos 0 then none else some (rem delta avg)

unfoldable pub past_midpoint : ℤ → ℤ → ℤ
past_midpoint delta avg = if ltb_ℤ (quot avg (pos 2)) delta then delta -ℤ avg else delta

unfoldable pub normalize_delta : ℤ → ℤ → Option ℤ
normalize_delta delta avg =
    let folded : Option ℤ =
      if ltb_ℤ avg delta || ltb_ℤ delta avg then fold_in delta avg else some delta in
    elim folded [ none ↦ none | some d ↦ some (past_midpoint d avg) ]
