-- ===== src/Secondary/Effects.antt =====
-- The effects of a whole round: when it synchronises, and what it leaves in the statistics.
use software_vsync_modulatio.Prelude.{
  ℕ, ◌+◌, ◌≤◌, ◌≡◌, ◌≢◌, refl, true, false, Option, none, some, List, [], ◌++◌, arith, inl, inr,
  ltb, Option-cases, Bool-cases,
}
use software_vsync_modulatio.Prelude.Int.{ℤ}
use software_vsync_modulatio.Prelude.Signed.{magnitude}
use software_vsync_modulatio.Double.{Double}
use software_vsync_modulatio.SyncCommon.{PipeStats, AllStats, get_pipe_stats, find_avg}
use software_vsync_modulatio.SyncCommon.Stats.{IsPipe, get_pipe_stats_self}
use software_vsync_modulatio.Secondary.{
  Args, World, Outcome, capture_secondary_vsync_one, capture_primary_vsync_once, primary_count,
  secondary_count, is_out_of_sync, is_first_excursion, zero_stats, decide, status_calls,
  compare_clocks, do_pipe_sync, give_up, clock_sync_tolerance_us, max_timestamps,
}
use software_vsync_modulatio.Secondary.Delta.{find_minimum_delta, normalize_delta}
use software_vsync_modulatio.Secondary.Round.{syncs, syncs-status, decide_cases}

-- The primary is asked for five timestamps more than the secondary, within the 100 of its array,
-- and the secondary for no more than the caller wants.
pub capture_counts :
    (n : ℕ)
    → (primary_count n ≡ secondary_count n + 5)
      × (primary_count n ≤ max_timestamps)
      × (secondary_count n ≤ n)
unfolding primary_count secondary_count
capture_counts n = ground arith

module _ {W : Type 0} (f : Double W) (a : Args W) (w : World W) (n : ℕ) (all : AllStats) where
  abbrev old : PipeStats
  old = get_pipe_stats all a.pipe zero_stats

  -- What a round has seen when it comes to a decision on the normalised delta `d`.
  pub record Seen (d : ℤ) : Type 0 where
    pub secondary : List ℕ
    pub primary : List ℕ
    pub captured_secondary : capture_secondary_vsync_one w (secondary_count n) ≡ some secondary
    pub captured_primary :
        capture_primary_vsync_once w (primary_count n) a.primary_pipe ≡ some primary
    pub clocks_agree :
        magnitude
          (find_minimum_delta primary secondary (secondary_count n) (primary_count n) 0).delta
        ≤ clock_sync_tolerance_us
    pub normalised :
        normalize_delta
          (find_minimum_delta primary secondary (secondary_count n) (primary_count n) 0).delta
          (find_avg secondary (secondary_count n))
        ≡ some d

  -- A round ends early, with no effect, or decides on what it has seen.
  pub data Course : Outcome W → Type 0 where
    early : (r : Option ℕ) → r ≢ some 0 → Course (record { ret = r; stats = all; calls = [] })
    decided :
        (d : ℤ)
        → Seen d
        → Course (record (decide f a w all old d) {
          calls = status_calls f a w d ++ (decide f a w all old d).calls;
        })

  compare_clocks-Course :
      (secondary primary : List ℕ)
      → capture_secondary_vsync_one w (secondary_count n) ≡ some secondary
      → capture_primary_vsync_once w (primary_count n) a.primary_pipe ≡ some primary
      → Course (compare_clocks f a w all primary secondary (primary_count n) (secondary_count n))
  unfolding compare_clocks give_up
  compare_clocks-Course secondary primary es ep =
      elim (Bool-cases (ltb clock_sync_tolerance_us (magnitude raw))) [
        | inl far ↦ rw far (early (some 1) (λ e. cc))
        | inr near ↦
            elim (Option-cases (normalize_delta raw (find_avg secondary (secondary_count n)))) [
              | inl stop ↦ rw (near, stop) (early none (λ e. cc))
              | inr (d, e) ↦
                  rw (near, e)
                    (decided d (record {
                      secondary = secondary;
                      primary = primary;
                      captured_secondary = es;
                      captured_primary = ep;
                      clocks_agree = ground arith;
                      normalised = e;
                    }))
            ]
      ]
    where
      raw : ℤ
      raw = (find_minimum_delta primary secondary (secondary_count n) (primary_count n) 0).delta

  pub do_pipe_sync-Course : Course (do_pipe_sync f a w n all)
  unfolding do_pipe_sync give_up
  do_pipe_sync-Course = elim (Option-cases (capture_secondary_vsync_one w (secondary_count n))) [
    | inl none_here ↦ rw (none_here, do_pipe_sync) (early (some 1) (λ e. cc))
    | inr (secondary, es) ↦
        elim (Option-cases (capture_primary_vsync_once w (primary_count n) a.primary_pipe)) [
          | inl none_there ↦ rw (es, none_there, do_pipe_sync) (early (some 1) (λ e. cc))
          | inr (primary, ep) ↦
              rw (es, ep, do_pipe_sync) (compare_clocks-Course secondary primary es ep)
        ]
  ]

module _ {W : Type 0} (f : Double W) (a : Args W) (w : World W) (n : ℕ) (all : AllStats) where
  -- A round of a pipe from 0 to 3 that synchronises has captured both sides, found a closest pair
  -- within 35 ms and a normalised delta past the threshold that is no first excursion; it
  -- synchronises once and resets both counters of the period.
  pub do_pipe_sync-justified :
      IsPipe a.pipe
      → syncs (do_pipe_sync f a w n all).calls ≢ 0
      → (d : ℤ) × Seen f a w n all d
        × (is_out_of_sync a.sync_threshold_us d ≡ true)
        × (is_first_excursion (all a.pipe) ≡ false)
        × (syncs (do_pipe_sync f a w n all).calls ≡ 1)
        × (((do_pipe_sync f a w n all).stats a.pipe).out_of_sync ≡ 0)
        × (((do_pipe_sync f a w n all).stats a.pipe).success_iter ≡ 0)
  do_pipe_sync-justified v = go (do_pipe_sync-Course f a w n all)
    where
      go :
          {o : Outcome W}
          → Course f a w n all o
          → syncs o.calls ≢ 0
          → (d : ℤ) × Seen f a w n all d
            × (is_out_of_sync a.sync_threshold_us d ≡ true)
            × (is_first_excursion (all a.pipe) ≡ false)
            × (syncs o.calls ≡ 1)
            × ((o.stats a.pipe).out_of_sync ≡ 0)
            × ((o.stats a.pipe).success_iter ≡ 0)
      go (early r e) h = absurd (h refl)
      go (decided d seen) h = (d, seen, facts.0, facts.1, facts.2, facts.3, facts.4)
        where
          made : Outcome W
          made = decide f a w all (get_pipe_stats all a.pipe zero_stats) d

          facts :
              (is_out_of_sync a.sync_threshold_us d ≡ true)
              × (is_first_excursion (all a.pipe) ≡ false)
              × (syncs (status_calls f a w d ++ made.calls) ≡ 1)
              × ((made.stats a.pipe).out_of_sync ≡ 0)
              × ((made.stats a.pipe).success_iter ≡ 0)
          facts = ground (
            arith,
            decide_cases f a w all (get_pipe_stats all a.pipe zero_stats) d v,
            syncs-status f a w d made.calls,
            get_pipe_stats_self all a.pipe zero_stats v,
          )
