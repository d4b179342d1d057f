-- ===== src/Secondary/Runs/Threads.antt =====
-- Rounds of several pipes' threads in any order: each pipe sees only its own.
use mathlib.Core.Path.{subst}
use software_vsync_modulatio.Prelude.{
  ℕ, ◌≡◌, ◌≢◌, refl, sym, true, false, List, [], ◌∷◌, inl, inr, Bool-cases, Option-cases, ap, ◌∙◌,
  ltb, arith, if◌then◌else◌,
}
use software_vsync_modulatio.Prelude.Int.{ℤ}
use software_vsync_modulatio.Prelude.Signed.{magnitude, ◌==ℤ◌}
use software_vsync_modulatio.Double.{Double}
use software_vsync_modulatio.SyncCommon.{PipeStats, AllStats, get_pipe_stats, find_avg}
use software_vsync_modulatio.SyncCommon.Stats.{IsPipe, get_pipe_stats_self}
use software_vsync_modulatio.Secondary.{
  Args, World, Outcome, zero_stats, decide, do_pipe_sync, compare_clocks, give_up,
  capture_secondary_vsync_one, capture_primary_vsync_once, primary_count, secondary_count,
  clock_sync_tolerance_us,
}
use software_vsync_modulatio.Secondary.Delta.{find_minimum_delta, normalize_delta}
use software_vsync_modulatio.Secondary.Round.{decide-own, decide_other, next_stats}
use software_vsync_modulatio.Secondary.Effects.{Course, early, decided, do_pipe_sync-Course}

module _ {W : Type 0} (f : Double W) where
  -- A round leaves the statistics of every other pipe as they were.
  pub do_pipe_sync_other :
      (a : Args W) (w : World W) (n : ℕ) (all : AllStats) (q : ℤ)
      → q ≢ a.pipe
      → (do_pipe_sync f a w n all).stats q ≡ all q
  do_pipe_sync_other a w n all q h = go (do_pipe_sync-Course f a w n all)
    where
      go : {o : Outcome W} → Course f a w n all o → o.stats q ≡ all q
      go (early r e) = refl
      go (decided d seen) = decide_other f a w all (get_pipe_stats all a.pipe zero_stats) d q h

  decide_local :
      (a : Args W) (w : World W) (all all' : AllStats) (d : ℤ)
      → IsPipe a.pipe
      → all a.pipe ≡ all' a.pipe
      → (decide f a w all (get_pipe_stats all a.pipe zero_stats) d).stats a.pipe
        ≡ (decide f a w all' (get_pipe_stats all' a.pipe zero_stats) d).stats a.pipe
  decide_local a w all all' d v e =
      decide-own f a w all (get_pipe_stats all a.pipe zero_stats) d v
      ∙ ap (λ (st : PipeStats). next_stats f a w all st d) same
      ∙ sym (decide-own f a w all' (get_pipe_stats all' a.pipe zero_stats) d v)
    where
      same : get_pipe_stats all a.pipe zero_stats ≡ get_pipe_stats all' a.pipe zero_stats
      same =
          get_pipe_stats_self all a.pipe zero_stats v
          ∙ e
          ∙ sym (get_pipe_stats_self all' a.pipe zero_stats v)

  module _ (a : Args W) (w : World W) (n : ℕ) (all all' : AllStats) (v : IsPipe a.pipe)
      (e : all a.pipe ≡ all' a.pipe) where
    compare_clocks_local :
        (primary secondary : List ℕ)
        → (compare_clocks f a w all primary secondary (primary_count n) (secondary_count n)).stats
            a.pipe
          ≡ (compare_clocks f a w all' primary secondary
                (primary_count n)
                (secondary_count n)).stats
              a.pipe
    unfolding compare_clocks give_up
    compare_clocks_local primary secondary =
        elim (Bool-cases (ltb clock_sync_tolerance_us (magnitude raw))) [
          | inl far ↦ rw far e
          | inr near ↦
              elim (Option-cases (normalize_delta raw (find_avg secondary (secondary_count n)))) [
                | inl stop ↦ rw (near, stop) e
                | inr (d, known) ↦ rw (near, known) (decide_local a w all all' d v e)
              ]
        ]
      where
        raw : ℤ
        raw = (find_minimum_delta primary secondary (secondary_count n) (primary_count n) 0).delta

    do_pipe_sync_local :
        (do_pipe_sync f a w n all).stats a.pipe ≡ (do_pipe_sync f a w n all').stats a.pipe
    unfolding do_pipe_sync give_up
    do_pipe_sync_local = elim (Option-cases (capture_secondary_vsync_one w (secondary_count n))) [
      | inl no_secondary ↦ rw (no_secondary, do_pipe_sync) e
      | inr (secondary, es) ↦
          elim (Option-cases (capture_primary_vsync_once w (primary_count n) a.primary_pipe)) [
            | inl no_primary ↦ rw (es, no_primary, do_pipe_sync) e
            | inr (primary, ep) ↦ rw (es, ep, do_pipe_sync) (compare_clocks_local primary secondary)
          ]
    ]

eq_of_test : (p q : ℤ) → (p ==ℤ q) ≡ true → p ≡ q
eq_of_test p q h = ground arith

ne_of_test : (p q : ℤ) → (p ==ℤ q) ≡ false → q ≢ p
ne_of_test p q h e = ground arith

-- A round that some thread makes.
pub record Round (W : Type 0) : Type 0 where
  pub args : Args W
  pub world : World W
  pub timestamps : ℕ

module _ {W : Type 0} (f : Double W) where
  -- The rounds of all threads, in the order in which they happen.
  pub interleave : List (Round W) → AllStats → AllStats
  interleave [] all = all
  interleave (r ∷ rs) all = interleave rs (do_pipe_sync f r.args r.world r.timestamps all).stats

  pub rounds_of : ℤ → List (Round W) → List (Round W)
  rounds_of p [] = []
  rounds_of p (r ∷ rs) = if r.args.pipe ==ℤ p then r ∷ rounds_of p rs else rounds_of p rs

  interleave-rounds_of :
      (p : ℤ) (rs : List (Round W)) (all all' : AllStats)
      → IsPipe p
      → all p ≡ all' p
      → interleave rs all p ≡ interleave (rounds_of p rs) all' p
  unfolding interleave rounds_of
  interleave-rounds_of p [] all all' v e = e
  interleave-rounds_of p (r ∷ rs) all all' v e = elim (Bool-cases (r.args.pipe ==ℤ p)) [
    | inl own ↦ rw own (interleave-rounds_of p rs _ _ v (here (eq_of_test r.args.pipe p own)))
    | inr other ↦ rw other (
        interleave-rounds_of p rs _ all' v (
          do_pipe_sync_other f r.args r.world r.timestamps all p (ne_of_test r.args.pipe p other)
          ∙ e))
  ]
    where
      here :
          r.args.pipe ≡ p
          → (do_pipe_sync f r.args r.world r.timestamps all).stats p
            ≡ (do_pipe_sync f r.args r.world r.timestamps all').stats p
      here q =
          subst
            (λ x.
              IsPipe x
              → all x ≡ all' x
              → (do_pipe_sync f r.args r.world r.timestamps all).stats x
                ≡ (do_pipe_sync f r.args r.world r.timestamps all').stats x)
            q (do_pipe_sync_local f r.args r.world r.timestamps all all') v e

  -- After rounds of any pipes in any order, the statistics of a pipe from 0 to 3 are what its own
  -- rounds alone would have left.
  pub interleave_independent :
      (p : ℤ) (rs : List (Round W)) (all : AllStats)
      → IsPipe p
      → interleave rs all p ≡ interleave (rounds_of p rs) all p
  interleave_independent p rs all v = interleave-rounds_of p rs all all v refl
