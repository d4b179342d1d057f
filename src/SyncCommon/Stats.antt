-- ===== src/SyncCommon/Stats.antt =====
-- `g_pipe_stats` is four cells: a write reaches its own cell and no other.
use software_vsync_modulatio.Prelude.{◌≡◌, ◌≢◌, false, arith}
use software_vsync_modulatio.Prelude.Int.{ℤ, eq_of_parts}
use software_vsync_modulatio.SyncCommon.{
  PipeStats, AllStats, get_pipe_stats, set_pipe_stats, is_bad_pipe, update,
}

-- A pipe for which the program keeps statistics.
abbrev pub IsPipe : ℤ → Type 0
IsPipe p = is_bad_pipe p ≡ false

pub set_pipe_stats_self :
    (all : AllStats) (p : ℤ) (st : PipeStats) → IsPipe p → set_pipe_stats all p st p ≡ st
unfolding set_pipe_stats update
set_pipe_stats_self all p st v = ground arith

pub set_pipe_stats_ne :
    (all : AllStats) (p q : ℤ) (st : PipeStats) → q ≢ p → set_pipe_stats all p st q ≡ all q
unfolding set_pipe_stats update
set_pipe_stats_ne all p q st h = ground (arith, eq_of_parts q p)

pub get_pipe_stats_self :
    (all : AllStats) (p : ℤ) (out : PipeStats) → IsPipe p → get_pipe_stats all p out ≡ all p
unfolding get_pipe_stats
get_pipe_stats_self all p out v = ground arith
