-- ===== src/Secondary/Runs.antt =====
-- Sequences of rounds: the loop of a pipe's thread (`pipe_sync_thread` of swgenlock/main.cpp) and
-- the interleaved rounds of several threads.
pub mod Counting
pub mod Threads
use software_vsync_modulatio.Prelude.{
  ℕ, zero, suc, Bool, true, false, not, Option, none, some, List, [], ◌∷◌, ◌++◌, ◌==◌, ◌&&◌,
  if◌then◌else◌,
}
use software_vsync_modulatio.Double.{Double}
use software_vsync_modulatio.SyncCommon.{AllStats}
use software_vsync_modulatio.Secondary.{Args, World, Outcome, Call, do_pipe_sync}

-- A round of the loop: its world, and whether `client_done` is set after it.
pub record Turn (W : Type 0) : Type 0 where
  pub world : World W
  pub client_done : Bool

-- `while (!client_done && !ret)`; a crash ends the process.
pub goes_on : Option ℕ → Bool → Bool
goes_on none client_done = false
goes_on (some ret) client_done = not client_done && ret == 0

-- The loop takes its turns until one ends it, or until the turns under observation are over.
-- After the first round two timestamps are captured.
pub pipe_sync_thread : {W : Type 0} → Double W → Args W → ℕ → List (Turn W) → AllStats → Outcome W
pipe_sync_thread f a timestamps [] all = record { ret = some 0; stats = all; calls = [] }
pipe_sync_thread f a timestamps (t ∷ ts) all =
    let o = do_pipe_sync f a t.world timestamps all in
    let rest = pipe_sync_thread f a 2 ts o.stats in
    if goes_on o.ret t.client_done then record rest { calls = o.calls ++ rest.calls } else o
