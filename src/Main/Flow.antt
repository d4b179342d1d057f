-- ===== src/Main/Flow.antt =====
-- swgenlock/main.cpp: what `main` does after the options. The calls with effects outside are a
-- list, in order.
use software_vsync_modulatio.Prelude.{
  ℕ, Bool, true, false, not, none, some, List, [], ◌∷◌, ◌++◌, ◌==◌, ◌&&◌, ◌||◌, if◌then◌else◌,
}
use software_vsync_modulatio.Prelude.Int.{ℤ, pos, negsuc, ltb_ℤ}
use software_vsync_modulatio.Prelude.Signed.{◌==ℤ◌}
use software_vsync_modulatio.Double.{Double}
use software_vsync_modulatio.SyncCommon.{is_not_zero}
use software_vsync_modulatio.Options.{Text, parse_pipes_arg}
use software_vsync_modulatio.Main.{Mode, pri, sec, pipelock, other, Config}

-- `PipeSyncThreadCtx`, without the settings that every thread gets alike.
pub record ThreadCtx : Type 0 where
  pub server_ip : Text
  pub mac_address : Text
  pub primary_pipe : ℤ
  pub pipe : ℕ

-- `delete_server` stands for `if(server) delete server`.
pub data Call : Type 0 where
  init_lib uninit_lib delete_server stop_collector : Call
  check_vsync run_primary reset_stats set_clock create_thread_failed join_thread : ℕ → Call
  start_collector : ℤ → Call
  create_thread : ThreadCtx → Call

-- What the functions called return; `vsync_result` is the result of `get_vsync` on a pipe.
pub record Env : Type 0 where
  pub vsync_result : ℕ → ℤ
  pub clock_works : Bool
  pub init_result : ℕ
  pub primary_result : ℕ
  pub has_phy_name : ℕ → Bool
  pub create_result : ℕ → ℕ

-- The status and the calls made.
pub record Run : Type 0 where
  pub status : ℕ
  pub calls : List Call

abbrev pub after : List Call → Run → Run
after before r = record r { calls = before ++ r.calls }

abbrev pub stop : ℕ → Run
stop status = record { status = status; calls = [] }

abbrev pub is_pipelock : Mode → Bool
is_pipelock pri = false
is_pipelock sec = false
is_pipelock pipelock = true
is_pipelock other = false

unfoldable pub front : List ℕ → ℕ
front [] = 0
front (p ∷ ps) = p

-- The primary pipe is among the secondary ones.
unfoldable pub is_among : ℤ → List ℕ → Bool
is_among primary [] = false
is_among primary (p ∷ ps) = pos p ==ℤ primary || is_among primary ps

module _ {W : Type 0} (f : Double W) (env : Env) (c : Config W) where
  -- The loop before the threads; `k` is what comes after it.
  unfoldable pub prepare_pipes : List ℕ → Run → Run
  prepare_pipes [] k = k
  prepare_pipes (p ∷ ps) k =
      let rest = prepare_pipes ps k in
      if env.has_phy_name p
      then after (reset_stats p ∷ (if is_not_zero f c.frequency then set_clock p ∷ [] else [])) rest
      else stop 1

  unfoldable pub context_of : ℕ → ThreadCtx
  context_of p =
      if is_pipelock c.mode
      then record { server_ip = []; mac_address = []; primary_pipe = c.primary_pipe; pipe = p }
      else record {
        server_ip = c.interface_or_ip;
        mac_address = c.mac_address;
        primary_pipe = negsuc 0;
        pipe = p;
      }

  -- The loops that create and join the threads.
  unfoldable pub create_threads : List ℕ → List Call
  unfolding context_of
  create_threads [] = []
  create_threads (p ∷ ps) =
      (if env.create_result p == 0 then create_thread (context_of p) else create_thread_failed p)
      ∷ create_threads ps

  unfoldable pub join_threads : List ℕ → List Call
  join_threads [] = []
  join_threads (p ∷ ps) =
      (if env.create_result p == 0 then join_thread p ∷ [] else []) ++ join_threads ps

  abbrev finish : List Call
  finish = uninit_lib ∷ (delete_server ∷ [])

  -- From the start of the collector on.
  unfoldable pub run_threads : List ℕ → Run
  unfolding create_threads join_threads
  run_threads ps =
      if is_pipelock c.mode
      then (if ltb_ℤ c.primary_pipe (pos 0) || ltb_ℤ (pos 3) c.primary_pipe
          then stop 1
          else record {
            status = 0;
            calls =
                start_collector c.primary_pipe
                ∷ (create_threads ps ++ (join_threads ps ++ (stop_collector ∷ finish)));
          })
      else record { status = 0; calls = create_threads ps ++ (join_threads ps ++ finish) }

  -- The branch of the secondary and of the pipelock mode.
  unfoldable pub run_secondary : List ℕ → Run
  unfolding prepare_pipes run_threads is_among
  run_secondary ps =
      if is_pipelock c.mode && is_among c.primary_pipe ps
      then stop 1
      else prepare_pipes ps (run_threads ps)

  unfoldable pub run_mode : Mode → List ℕ → Run
  unfolding run_secondary front
  run_mode pri ps = record { status = env.primary_result; calls = run_primary (front ps) ∷ finish }
  run_mode sec ps = run_secondary ps
  run_mode pipelock ps = run_secondary ps
  run_mode other ps = stop 1

  unfoldable pub init_and_run : List ℕ → Run
  unfolding run_mode
  init_and_run ps =
      after (init_lib ∷ []) (if env.init_result == 0 then run_mode c.mode ps else stop 1)

  -- The quick check of the timestamps on the first pipe; a large difference is only logged.
  unfoldable pub check_and_run : List ℕ → Run
  unfolding init_and_run front
  check_and_run ps =
      if c.hardware_ts
      then init_and_run ps
      else after (check_vsync (front ps) ∷ []) (
          if not (env.vsync_result (front ps) ==ℤ negsuc 0) && env.clock_works
          then init_and_run ps
          else stop 1)

  unfoldable pub run : Run
  unfolding check_and_run
  run = elim (parse_pipes_arg c.pipes_arg) [ none ↦ stop 1 | some ps ↦ check_and_run ps ]
