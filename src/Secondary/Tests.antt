-- ===== src/Secondary/Tests.antt =====
-- The theorems on swgenlock/secondary.cpp at concrete inputs.
use software_vsync_modulatio.Prelude.{
  ℕ, zero, suc, ◌+◌, ◌*◌, ◌%◌, ◌^◌, ◌<◌, ◌≤◌, ◌≡◌, refl, true, false, none, some, List, [], ◌∷◌,
  arith,
}
use software_vsync_modulatio.Prelude.Int.{ℤ, pos, negsuc, ◌+ℤ◌, ◌-ℤ◌}
use software_vsync_modulatio.Prelude.Signed.{magnitude}
use software_vsync_modulatio.Double.Micro.{micro}
use software_vsync_modulatio.SyncCommon.{
  Timespec, AllStats, initial_stats, find_avg, sum_intervals, timespec_to_ms, is_not_zero,
  is_bad_pipe, get_pipe_stats, set_pipe_stats, update,
}
use software_vsync_modulatio.SyncCommon.Stats.{IsPipe}
use software_vsync_modulatio.Secondary.{
  Args, World, do_pipe_sync, compare_clocks, decide, synchronize, is_out_of_sync,
  is_first_excursion, primary_count, secondary_count, capture_secondary_vsync_one,
  capture_primary_vsync_once, status_calls, perform_synchronization, sync_calls,
  set_thread_continue, adjusted_delta, learns, delta_ms_of, duration_ms,
}
use software_vsync_modulatio.Secondary.Delta.{
  find_minimum_delta, normalize_delta, difference, consider, scan_primary, scan_secondary, fold_in,
  past_midpoint,
}
use software_vsync_modulatio.Secondary.Delta.Minimum.{find_minimum_delta-IsMinimum, InRange, at}
use software_vsync_modulatio.Secondary.Delta.Normal.{
  normalize_delta-IsNearest, normalize_delta_negative,
}
use software_vsync_modulatio.Secondary.Effects.{Seen, do_pipe_sync-justified}
use software_vsync_modulatio.Secondary.Round.{syncs}
use software_vsync_modulatio.Secondary.Runs.{Turn, pipe_sync_thread}
use software_vsync_modulatio.Secondary.Runs.Counting.{pipe_sync_thread-counters, decide_twice-syncs}
use software_vsync_modulatio.Secondary.Runs.Threads.{
  Round, interleave, rounds_of, interleave_independent,
}

-- Two vblanks of the secondary, and seven of a primary that is half a millisecond later.
abbrev two_stamps : List ℕ
two_stamps = 1000000 ∷ 1016000 ∷ []

abbrev seven_stamps : List ℕ
seven_stamps = 920500 ∷ 936500 ∷ 952500 ∷ 968500 ∷ 984500 ∷ 1000500 ∷ 1016500 ∷ []

abbrev at_zero : Timespec
at_zero = record { tv_sec = 0; tv_nsec = 0 }

abbrev a_world : World ℤ
a_world = record {
  monitoring = false;
  secondary_vsync = λ n. some two_stamps;
  local_vsync = λ n. none;
  network_vsync = λ n. some seven_stamps;
  now = at_zero;
  now_again = at_zero;
  after_sync = at_zero;
  thread_created = true;
}

abbrev pipe_args : ℤ → Args ℤ
pipe_args p = record {
  has_server = true;
  pipe = p;
  sync_threshold_us = pos 100;
  shift = pos 10000;
  time_period = pos 480;
  learning_rate = pos 0;
  shift2 = pos 0;
  overshoot_ratio = pos 0;
  step_threshold = pos 1000;
  wait_between_steps = pos 50;
  primary_pipe = negsuc 0;
}

abbrev fresh : AllStats
fresh p = initial_stats

IsPipe-zero : IsPipe (pos 0)
unfolding is_bad_pipe
IsPipe-zero = refl

two_InRange : InRange two_stamps 2
two_InRange zero h = omega arith
two_InRange (suc zero) h = omega arith
two_InRange (suc (suc i)) h = absurd (omega arith)

one_InRange : InRange (1000500 ∷ []) 1
one_InRange zero h = omega arith
one_InRange (suc i) h = absurd (omega arith)

find_minimum_delta-IsMinimum_example :
    ((i : ℕ) × (j : ℕ) × (i < 2)
      × (j < 1)
      × ((find_minimum_delta (1000500 ∷ []) two_stamps 2 1 0).delta
          ≡ pos (at two_stamps i) -ℤ pos (at (1000500 ∷ []) j))
      × ((find_minimum_delta (1000500 ∷ []) two_stamps 2 1 0).matching ≡ at (1000500 ∷ []) j))
    × ((i j : ℕ)
        → i < 2
        → j < 1
        → magnitude (find_minimum_delta (1000500 ∷ []) two_stamps 2 1 0).delta
          ≤ magnitude (pos (at two_stamps i) -ℤ pos (at (1000500 ∷ []) j)))
find_minimum_delta-IsMinimum_example =
    find_minimum_delta-IsMinimum (1000500 ∷ []) two_stamps 2 1 0 (omega arith) (omega arith)
      one_InRange two_InRange

normalize_delta-IsNearest_example :
    (r : ℤ) × (k : ℕ) × (normalize_delta (pos 30000) (pos 16000) ≡ some r)
    × (pos 30000 ≡ r +ℤ pos (k * 16000))
    × (magnitude r + magnitude r ≤ 16000)
normalize_delta-IsNearest_example = normalize_delta-IsNearest 30000 16000 (omega arith)

normalize_delta_negative_example :
    (r : ℤ) × (normalize_delta (negsuc 13999) (pos 16000) ≡ some r)
    × (16000 < magnitude r + magnitude r)
    × (magnitude (r +ℤ pos 16000) < magnitude r)
normalize_delta_negative_example = normalize_delta_negative 13999 16000 (omega arith) (omega arith)

made_one : syncs (do_pipe_sync micro (pipe_args (pos 0)) a_world 2 fresh).calls ≡ 1
unfolding do_pipe_sync compare_clocks decide synchronize is_out_of_sync is_first_excursion
    primary_count secondary_count find_minimum_delta normalize_delta difference consider
    scan_primary scan_secondary fold_in past_midpoint find_avg sum_intervals timespec_to_ms
    is_not_zero is_bad_pipe get_pipe_stats set_pipe_stats update micro capture_secondary_vsync_one
    capture_primary_vsync_once status_calls perform_synchronization sync_calls set_thread_continue
    adjusted_delta learns delta_ms_of duration_ms
made_one = refl

do_pipe_sync-justified_example :
    (d : ℤ) × Seen micro (pipe_args (pos 0)) a_world 2 fresh d
    × (is_out_of_sync (pos 100) d ≡ true)
    × (is_first_excursion (fresh (pos 0)) ≡ false)
    × (syncs (do_pipe_sync micro (pipe_args (pos 0)) a_world 2 fresh).calls ≡ 1)
    × (((do_pipe_sync micro (pipe_args (pos 0)) a_world 2 fresh).stats (pos 0)).out_of_sync ≡ 0)
    × (((do_pipe_sync micro (pipe_args (pos 0)) a_world 2 fresh).stats (pos 0)).success_iter ≡ 0)
do_pipe_sync-justified_example =
    do_pipe_sync-justified micro (pipe_args (pos 0)) a_world 2 fresh IsPipe-zero
      (λ e. ground (arith, e, made_one))

abbrev two_turns : List (Turn ℤ)
two_turns =
    record { world = a_world; client_done = false }
    ∷ record { world = a_world; client_done = true }
    ∷ []

pipe_sync_thread-counters_example :
    (((pipe_sync_thread micro (pipe_args (pos 0)) 2 two_turns fresh).stats (pos 0)).sync_count
        % 2 ^ 32
      ≡ (0 + syncs (pipe_sync_thread micro (pipe_args (pos 0)) 2 two_turns fresh).calls) % 2 ^ 32)
    × (((pipe_sync_thread micro (pipe_args (pos 0)) 2 two_turns fresh).stats (pos 0)).out_of_sync
        ≤ 1)
pipe_sync_thread-counters_example =
    pipe_sync_thread-counters micro (pipe_args (pos 0)) IsPipe-zero 2 two_turns fresh (omega arith)

half_ms_out : is_out_of_sync (pos 100) (negsuc 499) ≡ true
unfolding is_out_of_sync
half_ms_out = refl

decide_twice-syncs_example :
    let first = decide micro (pipe_args (pos 0)) a_world fresh (fresh (pos 0)) (negsuc 499) in
    let second =
      decide micro (pipe_args (pos 0)) a_world first.stats (first.stats (pos 0)) (negsuc 499) in
    1 ≤ syncs first.calls + syncs second.calls
decide_twice-syncs_example =
    decide_twice-syncs micro (pipe_args (pos 0)) IsPipe-zero a_world a_world fresh (negsuc 499)
      (negsuc 499) half_ms_out half_ms_out refl refl (omega arith)

abbrev a_round : ℤ → Round ℤ
a_round p = record { args = pipe_args p; world = a_world; timestamps = 2 }

abbrev three_rounds : List (Round ℤ)
three_rounds = a_round (pos 0) ∷ a_round (pos 1) ∷ a_round (pos 0) ∷ []

interleave_independent_example :
    interleave micro three_rounds fresh (pos 0)
    ≡ interleave micro (rounds_of micro (pos 0) three_rounds) fresh (pos 0)
interleave_independent_example = interleave_independent micro (pos 0) three_rounds fresh IsPipe-zero
