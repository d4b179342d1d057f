-- ===== src/Secondary/Runs/Counting.antt =====
-- The counters of a pipe over any run of its thread.
use software_vsync_modulatio.Prelude.{
  ℕ, ◌+◌, ◌%◌, ◌^◌, ◌≤◌, ◌≡◌, Bool, true, List, [], ◌∷◌, ◌++◌, arith, inl, inr, Bool-cases,
}
use software_vsync_modulatio.Prelude.Int.{ℤ}
use software_vsync_modulatio.Double.{Double}
use software_vsync_modulatio.SyncCommon.{PipeStats, AllStats, get_pipe_stats}
use software_vsync_modulatio.SyncCommon.Stats.{IsPipe, get_pipe_stats_self}
use software_vsync_modulatio.Secondary.{
  Args, World, Call, Outcome, send_sync_status, synchronize_vsync, zero_stats, decide, do_pipe_sync,
  is_first_excursion, is_out_of_sync,
}
use software_vsync_modulatio.Secondary.Round.{syncs, syncs-status, decide_cases}
use software_vsync_modulatio.Secondary.Effects.{Course, early, decided, do_pipe_sync-Course}
use software_vsync_modulatio.Secondary.Runs.{Turn, goes_on, pipe_sync_thread}

syncs-append : {W : Type 0} (cs ds : List (Call W)) → syncs (cs ++ ds) ≡ syncs cs + syncs ds
syncs-append [] ds = omega arith
syncs-append (send_sync_status p d ∷ cs) ds = syncs-append cs ds
syncs-append (synchronize_vsync t p s s2 st ws true c ∷ cs) ds = omega (arith, syncs-append cs ds)
syncs-append (synchronize_vsync t p s s2 st ws Bool.false c ∷ cs) ds = syncs-append cs ds

-- What a step may do to a pipe's counters, with `k` synchronisations.
pub record Counts (before after : PipeStats) (k : ℕ) : Type 0 where
  pub counted : after.sync_count % 2 ^ 32 ≡ (before.sync_count + k) % 2 ^ 32
  pub hysteresis : before.out_of_sync ≤ 1 → after.out_of_sync ≤ 1

Counts-trans : {s t u : PipeStats} {j k : ℕ} → Counts s t j → Counts t u k → Counts s u (j + k)
Counts-trans c d = record { counted = omega arith; hysteresis = λ h. d.hysteresis (c.hysteresis h) }

module _ {W : Type 0} (f : Double W) (a : Args W) (v : IsPipe a.pipe) where
  Course-Counts :
      (w : World W) (n : ℕ) (all : AllStats) {o : Outcome W}
      → Course f a w n all o
      → Counts (all a.pipe) (o.stats a.pipe) (syncs o.calls)
  unfolding is_first_excursion
  Course-Counts w n all (early r e) = record { counted = omega arith; hysteresis = λ h. h }
  Course-Counts w n all (decided d seen) = record {
    counted = ground (
      arith,
      decide_cases f a w all (get_pipe_stats all a.pipe zero_stats) d v,
      syncs-status f a w d (decide f a w all (get_pipe_stats all a.pipe zero_stats) d).calls,
      get_pipe_stats_self all a.pipe zero_stats v,
    );
    hysteresis = ground (
      arith,
      decide_cases f a w all (get_pipe_stats all a.pipe zero_stats) d v,
      get_pipe_stats_self all a.pipe zero_stats v,
    );
  }

  pipe_sync_thread-Counts :
      (n : ℕ) (ts : List (Turn W)) (all : AllStats)
      → Counts
          (all a.pipe)
          ((pipe_sync_thread f a n ts all).stats a.pipe)
          (syncs (pipe_sync_thread f a n ts all).calls)
  unfolding pipe_sync_thread
  pipe_sync_thread-Counts n [] all = record { counted = omega arith; hysteresis = λ h. h }
  pipe_sync_thread-Counts n (t ∷ ts) all =
      elim (Bool-cases (goes_on (do_pipe_sync f a t.world n all).ret t.client_done)) [
        | inl more ↦ rw more (
            rw (syncs-append (do_pipe_sync f a t.world n all).calls) (
              Counts-trans (Course-Counts t.world n all (do_pipe_sync-Course f a t.world n all))
                (pipe_sync_thread-Counts 2 ts (do_pipe_sync f a t.world n all).stats)))
        | inr stop ↦ rw stop (Course-Counts t.world n all (do_pipe_sync-Course f a t.world n all))
      ]

  -- Over any run of a thread of a pipe from 0 to 3 that starts with at most one excursion,
  -- sync_count grows by the number of synchronisations made, modulo 2^32, and the excursions stay
  -- at most 1.
  pub pipe_sync_thread-counters :
      (n : ℕ) (ts : List (Turn W)) (all : AllStats)
      → (all a.pipe).out_of_sync ≤ 1
      → (((pipe_sync_thread f a n ts all).stats a.pipe).sync_count % 2 ^ 32
          ≡ ((all a.pipe).sync_count + syncs (pipe_sync_thread f a n ts all).calls) % 2 ^ 32)
        × (((pipe_sync_thread f a n ts all).stats a.pipe).out_of_sync ≤ 1)
  pipe_sync_thread-counters n ts all h =
      ((pipe_sync_thread-Counts n ts all).counted, (pipe_sync_thread-Counts n ts all).hysteresis h)

  -- For a pipe from 0 to 3 with at most one excursion so far: of two decisions in a row on deltas
  -- past the threshold, with the logging thread started in both, at least one synchronises.
  pub decide_twice-syncs :
      (w u : World W) (all : AllStats) (d e : ℤ)
      → is_out_of_sync a.sync_threshold_us d ≡ true
      → is_out_of_sync a.sync_threshold_us e ≡ true
      → w.thread_created ≡ true
      → u.thread_created ≡ true
      → (all a.pipe).out_of_sync ≤ 1
      → let first = decide f a w all (all a.pipe) d in
        let second = decide f a u first.stats (first.stats a.pipe) e in
        1 ≤ syncs first.calls + syncs second.calls
  unfolding is_first_excursion
  decide_twice-syncs w u all d e p q cw cu h = ground (
    arith,
    decide_cases f a w all (all a.pipe) d v,
    decide_cases f a u (decide f a w all (all a.pipe) d).stats
        ((decide f a w all (all a.pipe) d).stats a.pipe) e v,
  )
