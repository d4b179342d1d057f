-- ===== src/Secondary/Round.antt =====
-- What one round of `do_pipe_sync` does to the statistics and to the outside.
use software_vsync_modulatio.Prelude.{
  ℕ, suc, ◌≡◌, ◌≢◌, true, false, List, [], ◌∷◌, ◌++◌, if◌then◌else◌, arith, ◌⊎◌,
}
use software_vsync_modulatio.Prelude.Int.{ℤ}
use software_vsync_modulatio.Double.{Double}
use software_vsync_modulatio.SyncCommon.{
  PipeStats, AllStats, initial_stats, get_pipe_stats, increment,
}
use software_vsync_modulatio.SyncCommon.Stats.{IsPipe, set_pipe_stats_self, set_pipe_stats_ne}
use software_vsync_modulatio.Secondary.{
  Args, World, Call, send_sync_status, synchronize_vsync, set_thread_continue, sync_calls,
  perform_synchronization, is_out_of_sync, is_first_excursion, delta_ms_of, duration_ms,
  synchronize, decide, status_calls,
}

-- The synchronisations among some calls: those whose registers are reset afterwards.
abbrev pub syncs : {W : Type 0} → List (Call W) → ℕ
syncs [] = 0
syncs (send_sync_status p d ∷ cs) = syncs cs
syncs (synchronize_vsync t p s s2 st ws true c ∷ cs) = suc (syncs cs)
syncs (synchronize_vsync t p s s2 st ws false c ∷ cs) = syncs cs

module _ {W : Type 0} (f : Double W) (a : Args W) (w : World W) where
  syncs-sync_calls : (x : W) (d : ℤ) (n : ℕ) → syncs (sync_calls f a x d n) ≡ 1
  unfolding sync_calls
  syncs-sync_calls x d n = ground arith

  pub syncs-status : (d : ℤ) (cs : List (Call W)) → syncs (status_calls f a w d ++ cs) ≡ syncs cs
  unfolding status_calls
  syncs-status d cs = ground arith

  -- The statistics that `decide` leaves, in its three branches and after a failed start.
  abbrev pub counted : PipeStats → PipeStats
  counted st = record st { out_of_sync = increment st.out_of_sync }

  abbrev pub settled : PipeStats → PipeStats
  settled st = record st { out_of_sync = 0; success_iter = increment st.success_iter }

  abbrev pub not_started : PipeStats → PipeStats
  not_started st = record st { out_of_sync = 0; last_sync = w.now_again }

  abbrev pub synced : PipeStats → PipeStats
  synced st = record st {
    out_of_sync = 0;
    last_sync = w.after_sync;
    success_iter = 0;
    sync_count = increment st.sync_count;
  }

  set_thread_continue_ne :
      (all : AllStats) (v : ℕ) (q : ℤ) → q ≢ a.pipe → set_thread_continue all a.pipe v q ≡ all q
  unfolding set_thread_continue
  set_thread_continue_ne all v q h =
      set_pipe_stats_ne all a.pipe q
        (record (get_pipe_stats all a.pipe initial_stats) { thread_continue = v }) h

  module _ (all : AllStats) (st : PipeStats) (d : ℤ) where
    -- A split on the branches of `decide`: what it stores and how often it synchronises.
    pub decide_cases :
        IsPipe a.pipe
        → (((decide f a w all st d).stats a.pipe ≡ settled st)
            × (syncs (decide f a w all st d).calls ≡ 0)
            × (is_out_of_sync a.sync_threshold_us d ≡ false))
          ⊎ (((decide f a w all st d).stats a.pipe ≡ counted st)
              × (syncs (decide f a w all st d).calls ≡ 0)
              × (is_first_excursion st ≡ true))
          ⊎ (((decide f a w all st d).stats a.pipe ≡ not_started st)
              × (syncs (decide f a w all st d).calls ≡ 0)
              × (w.thread_created ≡ false))
          ⊎ (((decide f a w all st d).stats a.pipe ≡ synced st)
              × (syncs (decide f a w all st d).calls ≡ 1)
              × (is_out_of_sync a.sync_threshold_us d ≡ true)
              × (is_first_excursion st ≡ false))
    unfolding decide synchronize perform_synchronization
    decide_cases v = ground (
      arith,
      set_pipe_stats_self all a.pipe (settled st) v,
      set_pipe_stats_self all a.pipe (counted st) v,
      set_pipe_stats_self (set_thread_continue all a.pipe 1) a.pipe (not_started st) v,
      set_pipe_stats_self (set_thread_continue (set_thread_continue all a.pipe 1) a.pipe 0) a.pipe
          (synced st) v,
      syncs-sync_calls (delta_ms_of f d) (duration_ms w.now_again st.last_sync) st.sync_count,
    )

    -- The statistics of other pipes are not touched.
    pub decide_other : (q : ℤ) → q ≢ a.pipe → (decide f a w all st d).stats q ≡ all q
    unfolding decide synchronize perform_synchronization
    decide_other q h = ground (
      arith,
      set_pipe_stats_ne all a.pipe q (settled st) h,
      set_pipe_stats_ne all a.pipe q (counted st) h,
      set_pipe_stats_ne (set_thread_continue all a.pipe 1) a.pipe q (not_started st) h,
      set_pipe_stats_ne (set_thread_continue (set_thread_continue all a.pipe 1) a.pipe 0) a.pipe q
          (synced st) h,
      set_thread_continue_ne all 1 q h,
      set_thread_continue_ne (set_thread_continue all a.pipe 1) 0 q h,
    )

    -- The stored statistics of the own pipe, as a function of the loaded ones.
    abbrev pub next_stats : PipeStats
    next_stats =
        if is_out_of_sync a.sync_threshold_us d
        then (if is_first_excursion st
            then counted st
            else (if w.thread_created then synced st else not_started st))
        else settled st

    pub decide-own : IsPipe a.pipe → (decide f a w all st d).stats a.pipe ≡ next_stats
    unfolding decide synchronize perform_synchronization
    decide-own v = ground (
      arith,
      set_pipe_stats_self all a.pipe (settled st) v,
      set_pipe_stats_self all a.pipe (counted st) v,
      set_pipe_stats_self (set_thread_continue all a.pipe 1) a.pipe (not_started st) v,
      set_pipe_stats_self (set_thread_continue (set_thread_continue all a.pipe 1) a.pipe 0) a.pipe
          (synced st) v,
    )
