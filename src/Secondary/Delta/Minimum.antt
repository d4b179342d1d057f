-- ===== src/Secondary/Delta/Minimum.antt =====
-- `find_minimum_delta` returns a pair of timestamps that no other pair is closer than.
use software_vsync_modulatio.Prelude.{
  ℕ, zero, suc, ◌^◌, ◌≤◌, ◌<◌, ◌≡◌, refl, ◌⊎◌, inl, inr, List, get_or, arith, ap, ◌∙◌,
}
use software_vsync_modulatio.Prelude.Int.{pos, ◌-ℤ◌}
use software_vsync_modulatio.Prelude.Signed.{magnitude, signed64-sub}
use software_vsync_modulatio.Secondary.Delta.{
  Nearest, difference, consider, scan_primary, scan_secondary, find_minimum_delta, long_max,
}

abbrev pub at : List ℕ → ℕ → ℕ
at xs i = get_or xs i 0

abbrev pair_of : ℕ → ℕ → Nearest
pair_of s p = record { delta = difference s p; matching = p }

consider_le_old : (s p : ℕ) (b : Nearest) → magnitude (consider s p b).delta ≤ magnitude b.delta
unfolding consider
consider_le_old s p b = ground arith

consider_le_new :
    (s p : ℕ) (b : Nearest) → magnitude (consider s p b).delta ≤ magnitude (difference s p)
unfolding consider
consider_le_new s p b = ground arith

consider_origin : (s p : ℕ) (b : Nearest) → (consider s p b ≡ b) ⊎ (consider s p b ≡ pair_of s p)
unfolding consider
consider_origin s p b = ground arith

module _ (primary : List ℕ) (s : ℕ) where
  scan_primary_le_old :
      (n : ℕ) (b : Nearest) → magnitude (scan_primary primary s n b).delta ≤ magnitude b.delta
  unfolding scan_primary
  scan_primary_le_old zero b = omega arith
  scan_primary_le_old (suc n) b = omega (
    arith,
    scan_primary_le_old n (consider s (at primary n) b),
    consider_le_old s (at primary n) b,
  )

  scan_primary_le :
      (n : ℕ) (b : Nearest) (j : ℕ)
      → j < n
      → magnitude (scan_primary primary s n b).delta ≤ magnitude (difference s (at primary j))
  unfolding scan_primary
  scan_primary_le zero b j h = absurd (omega arith)
  scan_primary_le (suc n) b j h = ground (
    arith,
    scan_primary_le n (consider s (at primary n) b) j,
    scan_primary_le_old n (consider s (at primary n) b),
    consider_le_new s (at primary n) b,
  )

  -- The result is the old minimum or the pair of some `j` in range.
  scan_primary_origin :
      (n : ℕ) (b : Nearest)
      → (scan_primary primary s n b ≡ b)
        ⊎ ((j : ℕ) × (j < n) × (scan_primary primary s n b ≡ pair_of s (at primary j)))
  unfolding scan_primary
  scan_primary_origin zero b = inl refl
  scan_primary_origin (suc n) b =
      go (scan_primary_origin n (consider s (at primary n) b)) (consider_origin s (at primary n) b)
    where
      r : Nearest
      r = scan_primary primary s n (consider s (at primary n) b)

      go :
          (r ≡ consider s (at primary n) b) ⊎ ((j : ℕ) × (j < n) × (r ≡ pair_of s (at primary j)))
          → (consider s (at primary n) b ≡ b)
            ⊎ (consider s (at primary n) b ≡ pair_of s (at primary n))
          → (r ≡ b) ⊎ ((j : ℕ) × (j < suc n) × (r ≡ pair_of s (at primary j)))
      go (inl e) (inl f) = inl (rw e f)
      go (inl e) (inr f) = inr (n, omega arith, rw e f)
      go (inr (j, h, e)) f = inr (j, omega arith, e)

module _ (primary : List ℕ) (n : ℕ) (secondary : List ℕ) where
  scan_secondary_le_old :
      (m : ℕ) (b : Nearest)
      → magnitude (scan_secondary primary n secondary m b).delta ≤ magnitude b.delta
  unfolding scan_secondary
  scan_secondary_le_old zero b = omega arith
  scan_secondary_le_old (suc m) b = omega (
    arith,
    scan_secondary_le_old m (scan_primary primary (at secondary m) n b),
    scan_primary_le_old primary (at secondary m) n b,
  )

  scan_secondary_le :
      (m : ℕ) (b : Nearest) (i j : ℕ)
      → i < m
      → j < n
      → magnitude (scan_secondary primary n secondary m b).delta
        ≤ magnitude (difference (at secondary i) (at primary j))
  unfolding scan_secondary
  scan_secondary_le zero b i j h k = absurd (omega arith)
  scan_secondary_le (suc m) b i j h k = ground (
    arith,
    scan_secondary_le m (scan_primary primary (at secondary m) n b) i j,
    scan_secondary_le_old m (scan_primary primary (at secondary m) n b),
    scan_primary_le primary (at secondary m) n b j,
  )

  abbrev Origin : ℕ → Nearest → Type 0
  Origin m r = (i : ℕ) × (j : ℕ) × (i < m) × (j < n) × (r ≡ pair_of (at secondary i) (at primary j))

  scan_secondary-Origin :
      (m : ℕ) (b : Nearest)
      → (scan_secondary primary n secondary m b ≡ b)
        ⊎ Origin m (scan_secondary primary n secondary m b)
  unfolding scan_secondary
  scan_secondary-Origin zero b = inl refl
  scan_secondary-Origin (suc m) b =
      go (scan_secondary-Origin m mid) (scan_primary_origin primary (at secondary m) n b)
    where
      mid : Nearest
      mid = scan_primary primary (at secondary m) n b

      r : Nearest
      r = scan_secondary primary n secondary m mid

      go :
          (r ≡ mid) ⊎ Origin m r
          → (mid ≡ b) ⊎ ((j : ℕ) × (j < n) × (mid ≡ pair_of (at secondary m) (at primary j)))
          → (r ≡ b) ⊎ Origin (suc m) r
      go (inl e) (inl f) = inl (rw e f)
      go (inl e) (inr (j, h, f)) = inr (m, j, omega arith, h, rw e f)
      go (inr (i, j, h, k, e)) f = inr (i, j, omega arith, k, e)

-- Timestamps in microseconds since 1970, far below the range of `int64_t`.
abbrev pub InRange : List ℕ → ℕ → Type 0
InRange xs n = (i : ℕ) → i < n → at xs i < 2 ^ 62

difference-lt : (s p : ℕ) → s < 2 ^ 62 → p < 2 ^ 62 → magnitude (difference s p) < 2 ^ 62
unfolding difference
difference-lt s p hs hp = ground arith

difference_exact : (s p : ℕ) → s < 2 ^ 62 → p < 2 ^ 62 → difference s p ≡ pos s -ℤ pos p
unfolding difference
difference_exact s p hs hp = signed64-sub s p (omega arith) (omega arith)

module _ (primary secondary : List ℕ) (m n before : ℕ) (ms : 0 < m) (ns : 0 < n)
    (hp : InRange primary n) (hs : InRange secondary m) where
  -- For non-empty arrays of timestamps within the bounds of InRange, the result is the exact
  -- signed difference of a pair of the two arrays, its primary timestamp is the matching one, and
  -- no pair is closer.
  pub find_minimum_delta-IsMinimum :
      ((i : ℕ) × (j : ℕ) × (i < m)
        × (j < n)
        × ((find_minimum_delta primary secondary m n before).delta
            ≡ pos (at secondary i) -ℤ pos (at primary j))
        × ((find_minimum_delta primary secondary m n before).matching ≡ at primary j))
      × ((i j : ℕ)
          → i < m
          → j < n
          → magnitude (find_minimum_delta primary secondary m n before).delta
            ≤ magnitude (pos (at secondary i) -ℤ pos (at primary j)))
  unfolding find_minimum_delta
  find_minimum_delta-IsMinimum =
      (attained (scan_secondary-Origin primary n secondary m start), least)
    where
      start : Nearest
      start = record { delta = long_max; matching = before }

      r : Nearest
      r = scan_secondary primary n secondary m start

      least :
          (i j : ℕ)
          → i < m
          → j < n
          → magnitude r.delta ≤ magnitude (pos (at secondary i) -ℤ pos (at primary j))
      least i j h k =
          rw (← difference_exact (at secondary i) (at primary j) (hs i h) (hp j k))
            (scan_secondary_le primary n secondary m start i j h k)

      attained :
          (r ≡ start) ⊎ Origin primary n secondary m r
          → (i : ℕ) × (j : ℕ) × (i < m)
            × (j < n)
            × (r.delta ≡ pos (at secondary i) -ℤ pos (at primary j))
            × (r.matching ≡ at primary j)
      attained (inl e) = absurd (
          omega (
            arith,
            ap (λ (x : Nearest). magnitude x.delta) e,
            scan_secondary_le primary n secondary m start 0 0 ms ns,
            difference-lt (at secondary 0) (at primary 0) (hs 0 ms) (hp 0 ns),
          ))
      attained (inr (i, j, h, k, e)) = (
        i,
        j,
        h,
        k,
        ap (λ (x : Nearest). x.delta) e
            ∙ difference_exact (at secondary i) (at primary j) (hs i h) (hp j k),
        ap (λ (x : Nearest). x.matching) e,
      )
