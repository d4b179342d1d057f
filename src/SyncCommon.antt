-- ===== src/SyncCommon.antt =====
-- swgenlock/sync_common.cpp and sync_common.h: averages, clocks and the per-pipe statistics.
pub mod Average
pub mod Stats
use software_vsync_modulatio.Prelude.{
  ℕ, zero, suc, ◌+◌, ◌-◌, ◌*◌, ◌/◌, ◌%◌, ◌^◌, Bool, true, false, not, Option, none, some, List,
  get_or, ◌==◌, ltb, if◌then◌else◌, ◌||◌, ◌&&◌,
}
use software_vsync_modulatio.Prelude.Int.{ℤ, pos, ltb_ℤ}
use software_vsync_modulatio.Prelude.Signed.{signed32, quot, ◌==ℤ◌}
use software_vsync_modulatio.Double.{Double}

-- `avg += va[i+1] - va[i]`: the sum is made in `uint64_t` and cut to the `int` avg, kept here as
-- its 32-bit pattern. The loop is at `i`, with `left` rounds to go.
unfoldable pub sum_intervals : List ℕ → ℕ → ℕ → ℕ → ℕ
sum_intervals va zero i acc = acc
sum_intervals va (suc left) i acc =
    sum_intervals va left (i + 1) ((acc + (get_or va (i + 1) 0 + 2 ^ 64 - get_or va i 0)) % 2 ^ 32)

unfoldable pub find_avg : List ℕ → ℕ → ℤ
find_avg va sz =
    quot (signed32 (sum_intervals va (sz - 1) 0 0)) (pos (if sz == 1 then sz else sz - 1))

pub record Timespec : Type 0 where
  pub tv_sec : ℕ
  pub tv_nsec : ℕ

unfoldable pub timespec_to_ms : Timespec → ℕ
timespec_to_ms ts = ts.tv_sec * 1000 + ts.tv_nsec / 1000000

-- `none` is a failing `os_clock_gettime`.
pub get_realtime_timestamp_us : Option Timespec → ℕ
get_realtime_timestamp_us none = 0
get_realtime_timestamp_us (some ts) = (ts.tv_sec * 1000000 + ts.tv_nsec / 1000) % 2 ^ 64

-- `fabs(value) >= EPSILON`
unfoldable pub is_not_zero : {W : Type 0} → Double W → W → Bool
is_not_zero f value = f.le (f.literal 1 9) (f.fabs value)

-- `PipeStats`; the counters are `u_int32_t`.
pub record PipeStats : Type 0 where
  pub success_iter : ℕ
  pub sync_count : ℕ
  pub out_of_sync : ℕ
  pub last_sync : Timespec
  pub thread_continue : ℕ

-- The initial value of each element of `g_pipe_stats`, and of `reset_pipe_stats`.
abbrev pub initial_stats : PipeStats
initial_stats = record {
  success_iter = 0;
  sync_count = 0;
  out_of_sync = 0;
  last_sync = record { tv_sec = 0; tv_nsec = 0 };
  thread_continue = 1;
}

-- `g_pipe_stats`, by the pipe's number.
abbrev pub AllStats : Type 0
AllStats = ℤ → PipeStats

-- `pipe < 0 || pipe > 3`
unfoldable pub is_bad_pipe : ℤ → Bool
is_bad_pipe pipe = ltb_ℤ pipe (pos 0) || ltb_ℤ (pos 3) pipe

-- `out` is what the caller's variable holds before the call.
unfoldable pub get_pipe_stats : AllStats → ℤ → PipeStats → PipeStats
get_pipe_stats all pipe out = if is_bad_pipe pipe then out else all pipe

unfoldable pub update : AllStats → ℤ → PipeStats → AllStats
update all pipe st p = if p ==ℤ pipe then st else all p

unfoldable pub set_pipe_stats : AllStats → ℤ → PipeStats → AllStats
set_pipe_stats all pipe st = if is_bad_pipe pipe then all else update all pipe st

-- `now` is the reading of the monotonic clock.
pub reset_pipe_stats : AllStats → ℤ → Timespec → AllStats
reset_pipe_stats all pipe now =
    if is_bad_pipe pipe then all else update all pipe (record initial_stats { last_sync = now })

-- `++` on a `u_int32_t`
abbrev pub increment : ℕ → ℕ
increment n = (n + 1) % 2 ^ 32
