-- ===== src/Secondary.antt =====
-- swgenlock/secondary.cpp: one round of synchronisation of one pipe. What the round learns from
-- outside (captures, clocks, thread creation) is the record `World`; what it does to the outside
-- is the list of its calls, in order.
pub mod Capture
pub mod Delta
pub mod Round
pub mod Effects
pub mod Runs
mod Tests
use software_vsync_modulatio.Prelude.{
  ℕ, zero, suc, ◌+◌, ◌-◌, ◌*◌, Bool, true, false, not, Option, none, some, List, [], ◌∷◌, ◌++◌, ltb,
  if◌then◌else◌, ◌&&◌, ◌||◌, ◌==◌,
}
use software_vsync_modulatio.Prelude.Int.{ℤ, pos, negsuc, ltb_ℤ, ◌-ℤ◌, ◌*ℤ◌}
use software_vsync_modulatio.Prelude.Signed.{magnitude, signed64, ◌==ℤ◌}
use software_vsync_modulatio.Double.{Double}
use software_vsync_modulatio.SyncCommon.{
  Timespec, timespec_to_ms, is_not_zero, PipeStats, AllStats, initial_stats, get_pipe_stats,
  set_pipe_stats, increment, find_avg,
}
use software_vsync_modulatio.Secondary.Delta.{find_minimum_delta, normalize_delta}

abbrev pub max_timestamps : ℕ
max_timestamps = 100

abbrev n_extra : ℕ
n_extra = 5

abbrev clock_sync_tolerance_us : ℕ
clock_sync_tolerance_us = 35000

-- The arguments of `do_pipe_sync` that a run keeps, but for the number of timestamps.
pub record Args (W : Type 0) : Type 0 where
  pub has_server : Bool
  pub pipe : ℤ
  pub sync_threshold_us : ℤ
  pub shift : W
  pub time_period : ℤ
  pub learning_rate : W
  pub shift2 : W
  pub overshoot_ratio : W
  pub step_threshold : ℤ
  pub wait_between_steps : ℤ
  pub primary_pipe : ℤ

-- `get_vsync` and `get_last_vsyncs` fill an array, and the connection to the server gives the
-- primary's; `none` is a failure. Three readings of the monotonic clock are taken in a round.
pub record World (W : Type 0) : Type 0 where
  pub monitoring : Bool
  pub secondary_vsync : ℕ → Option (List ℕ)
  pub local_vsync : ℕ → Option (List ℕ)
  pub network_vsync : ℕ → Option (List ℕ)
  pub now : Timespec
  pub now_again : Timespec
  pub after_sync : Timespec
  pub thread_created : Bool

-- The calls with effects outside: the monitor's message, and the library's `synchronize_vsync`.
pub data Call (W : Type 0) : Type 0 where
  send_sync_status : ℤ → ℤ → Call W
  synchronize_vsync : W → ℤ → W → W → ℤ → ℤ → Bool → Bool → Call W

pub record Outcome (W : Type 0) : Type 0 where
  -- 0 is success; `none` is the division by zero of `normalize_delta`
  pub ret : Option ℕ
  pub stats : AllStats
  pub calls : List (Call W)

-- `capture_secondary_vsync_one`
pub capture_secondary_vsync_one : {W : Type 0} → World W → ℕ → Option (List ℕ)
capture_secondary_vsync_one w timestamps =
    if ltb max_timestamps timestamps then none else w.secondary_vsync timestamps

-- `capture_primary_vsync_once`: local for a primary pipe, else over the network.
pub capture_primary_vsync_once : {W : Type 0} → World W → ℕ → ℤ → Option (List ℕ)
capture_primary_vsync_once w timestamps primary_pipe =
    if ltb_ℤ primary_pipe (pos 0) then w.network_vsync timestamps else w.local_vsync timestamps

-- `get_pipe_stats`, one field, `set_pipe_stats`; `stats` starts as an unset variable.
pub set_thread_continue : AllStats → ℤ → ℕ → AllStats
set_thread_continue all pipe v =
    set_pipe_stats all pipe (record (get_pipe_stats all pipe initial_stats) { thread_continue = v })

module _ {W : Type 0} (f : Double W) where
  -- Overshoot applies when learning is off or its time is over; `duration` is in milliseconds.
  pub adjusted_delta : Args W → W → ℤ → W
  adjusted_delta a delta_ms duration =
      if not (is_not_zero f a.learning_rate) || ltb_ℤ (a.time_period *ℤ pos 1000) duration
      then f.mul delta_ms (f.add (f.literal 1 0) a.overshoot_ratio)
      else delta_ms

  -- The condition of the adaptive learning step.
  pub learns : Args W → ℤ → ℕ → Bool
  learns a duration sync_count =
      is_not_zero f a.learning_rate
      && (ltb 1 sync_count && ltb_ℤ duration (a.time_period *ℤ pos 1000))

  pub sync_calls : Args W → W → ℤ → ℕ → List (Call W)
  sync_calls a delta_ms duration sync_count =
      synchronize_vsync (adjusted_delta a delta_ms duration) a.pipe a.shift a.shift2
        a.step_threshold a.wait_between_steps true true
      ∷ (if learns a duration sync_count
          then synchronize_vsync delta_ms a.pipe a.learning_rate (f.literal 0 0) a.step_threshold
              a.wait_between_steps false true
            ∷ []
          else [])

  pub perform_synchronization : Args W → World W → AllStats → W → ℤ → ℕ → Outcome W
  perform_synchronization a w all delta_ms duration sync_count =
      let started = set_thread_continue all a.pipe 1 in
      if w.thread_created
      then record {
        ret = some 0;
        stats = set_thread_continue started a.pipe 0;
        calls = sync_calls a delta_ms duration sync_count;
      }
      else record { ret = some 1; stats = started; calls = [] }

-- The sizes of the two captures: five more from the primary, within 100.
pub primary_count : ℕ → ℕ
primary_count timestamps =
    if ltb max_timestamps (timestamps + n_extra) then max_timestamps else timestamps + n_extra

pub secondary_count : ℕ → ℕ
secondary_count timestamps =
    if ltb max_timestamps (timestamps + n_extra) then max_timestamps - n_extra else timestamps

-- `PipeStats stats{}`
abbrev pub zero_stats : PipeStats
zero_stats = record initial_stats { thread_continue = 0 }

-- The difference of two readings in milliseconds.
pub duration_ms : Timespec → Timespec → ℤ
duration_ms now last = pos (timespec_to_ms now) -ℤ pos (timespec_to_ms last)

-- `sync_threshold_us && std::abs(delta) > sync_threshold_us`
pub is_out_of_sync : ℤ → ℤ → Bool
is_out_of_sync threshold delta =
    not (threshold ==ℤ pos 0) && ltb_ℤ threshold (pos (magnitude delta))

-- A first excursion is only counted, once two synchronisations have been made.
pub is_first_excursion : PipeStats → Bool
is_first_excursion st = ltb (increment st.out_of_sync) 2 && ltb 1 st.sync_count

module _ {W : Type 0} (f : Double W) where
  -- `(delta * -1.0) / US_IN_MS`
  pub delta_ms_of : ℤ → W
  delta_ms_of delta = f.div (f.mul (f.of_int delta) (f.of_int (negsuc 0))) (f.literal 1000 0)

  -- The branch that synchronises, from `stats.out_of_sync = 0` on.
  pub synchronize : Args W → World W → AllStats → PipeStats → ℤ → Outcome W
  synchronize a w all st delta =
      let local : PipeStats = record st { out_of_sync = 0; last_sync = w.now_again } in
      let done : Outcome W =
        perform_synchronization f a w all (delta_ms_of delta) (duration_ms w.now_again st.last_sync)
          st.sync_count in
      if w.thread_created
      then record done {
        stats = set_pipe_stats done.stats a.pipe (record local {
          last_sync = w.after_sync;
          success_iter = 0;
          sync_count = increment st.sync_count;
        });
      }
      else record done { stats = set_pipe_stats done.stats a.pipe local }

  -- The decision of a round, from the normalised delta on.
  pub decide : Args W → World W → AllStats → PipeStats → ℤ → Outcome W
  decide a w all st delta =
      if is_out_of_sync a.sync_threshold_us delta
      then (if is_first_excursion st
          then record {
            ret = some 0;
            stats =
                set_pipe_stats all a.pipe (record st { out_of_sync = increment st.out_of_sync });
            calls = [];
          }
          else synchronize a w all st delta)
      else record {
        ret = some 0;
        stats =
            set_pipe_stats all a.pipe
              (record st { out_of_sync = 0; success_iter = increment st.success_iter });
        calls = [];
      }

  -- The monitor's message, if the mode and the option ask for it.
  pub status_calls : Args W → World W → ℤ → List (Call W)
  status_calls a w delta =
      if w.monitoring && a.has_server then send_sync_status a.pipe delta ∷ [] else []

  -- A return before any effect.
  pub give_up : AllStats → Outcome W
  give_up all = record { ret = some 1; stats = all; calls = [] }

  -- From both captures on.
  pub compare_clocks : Args W → World W → AllStats → List ℕ → List ℕ → ℕ → ℕ → Outcome W
  compare_clocks a w all primary secondary n_primary n_secondary =
      let delta = (find_minimum_delta primary secondary n_secondary n_primary 0).delta in
      if ltb clock_sync_tolerance_us (magnitude delta)
      then give_up all
      else elim (normalize_delta delta (find_avg secondary n_secondary)) [
        | none ↦ record { ret = none; stats = all; calls = [] }
        | some d ↦
            let o : Outcome W = decide a w all (get_pipe_stats all a.pipe zero_stats) d in
            record o { calls = status_calls a w d ++ o.calls }
      ]

  pub do_pipe_sync : Args W → World W → ℕ → AllStats → Outcome W
  do_pipe_sync a w timestamps all =
      elim (capture_secondary_vsync_one w (secondary_count timestamps)) [
        | none ↦ give_up all
        | some secondary ↦
            elim (capture_primary_vsync_once w (primary_count timestamps) a.primary_pipe) [
              | none ↦ give_up all
              | some primary ↦
                  compare_clocks a w all primary secondary (primary_count timestamps)
                    (secondary_count timestamps)
            ]
      ]
