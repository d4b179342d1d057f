-- ===== src/Framesync/Secondary.antt =====
-- framesync/secondary.cpp: the side that shows the colours. The thread that receives and the loop that
-- shows share a queue under a mutex, so that a run is a list of their steps in any order.
pub mod Queue
mod Tests
use software_vsync_modulatio.Prelude.{
  ℕ, Bool, true, false, not, Option, none, some, List, [], ◌∷◌, ◌++◌, ◌&&◌, ◌||◌, if◌then◌else◌,
}
use software_vsync_modulatio.Prelude.Int.{ℤ, pos, negsuc, ltb_ℤ, ◌-ℤ◌}
use software_vsync_modulatio.Prelude.Signed.{signed64}
use software_vsync_modulatio.Framesync.{
  ColorUpdate, Call, Run, open_socket, close_socket, start_thread, join_thread, cleanup_renderer,
  sleep_until_realtime_us, present,
}

-- What a turn of the thread meets: nothing, an error of `select`, an error of `recvfrom`, a message of
-- another type, or an update.
pub data Arrival : Type 0 where
  timeout select_fails receive_fails other_type : Arrival
  update : ColorUpdate → Arrival

-- What a turn of the loop meets: the window, the real-time clock and the wait for a vblank.
pub record Turn : Type 0 where
  pub should_close : Bool
  pub now : ℕ
  pub vblank_comes : Bool

pub data Step : Type 0 where
  receives : Arrival → Step
  shows : Turn → Step

-- `g_pending_updates`, and whether the thread still runs.
pub record State : Type 0 where
  pub pending : List ColorUpdate
  pub receiving : Bool

-- `receive_updates_thread`, one turn.
pub receive_one : Arrival → State → State
receive_one timeout s = s
receive_one select_fails s = record s { receiving = false }
receive_one receive_fails s = s
receive_one other_type s = s
receive_one (update m) s = record s { pending = s.pending ++ (m ∷ []) }

pub receive : Arrival → State → State
unfolding receive_one
receive a s = if s.receiving then receive_one a s else s

-- Microseconds until the target, negative when it has passed.
pub time_until_target : ColorUpdate → ℕ → ℤ
time_until_target m now = signed64 m.target_timestamp_us -ℤ signed64 now

-- An update that is taken from the queue: the wait, if it comes early, and its colour.
pub apply_update : ColorUpdate → Turn → List Call
unfolding time_until_target
apply_update m t =
    (if ltb_ℤ (pos 0) (time_until_target m t.now)
      then sleep_until_realtime_us m.target_timestamp_us ∷ []
      else [])
    ++ (if t.vblank_comes then present m.color ∷ [] else [])

-- What the loop leaves: its calls, the updates that it took, and the state.
pub record Shown : Type 0 where
  pub calls : List Call
  pub taken : List ColorUpdate
  pub left : State

abbrev pub stops : State → Shown
stops s = record { calls = []; taken = []; left = s }

-- The steps until the shutdown.
pub show_loop : List Step → State → Shown
unfolding receive apply_update
show_loop [] s = stops s
show_loop (receives a ∷ rest) s = show_loop rest (receive a s)
show_loop (shows t ∷ rest) s = elim s.pending [
  | [] ↦
      let more = show_loop rest s in if t.should_close || not t.vblank_comes then stops s else more
  | m ∷ ms ↦
      let more = show_loop rest (record s { pending = ms }) in
      if t.should_close
      then stops s
      else record more { calls = apply_update m t ++ more.calls; taken = m ∷ more.taken }
]

-- Which steps before the loop work.
pub record Setup : Type 0 where
  pub makes_socket : Bool
  pub binds : Bool
  pub group_is_valid : Bool
  pub interface_given : Bool
  pub interface_is_valid : Bool
  pub joins_group : Bool
  pub renderer_works : Bool

pub is_ready : Setup → Bool
is_ready u =
    u.binds
    && (u.group_is_valid
        && ((not u.interface_given || u.interface_is_valid) && (u.joins_group && u.renderer_works)))

-- `run_secondary`, which starts with a black screen.
pub run_secondary : Setup → List Step → Run
unfolding show_loop is_ready
run_secondary u steps =
    if not u.makes_socket
    then record { succeeds = false; calls = [] }
    else (if not (is_ready u)
        then record { succeeds = false; calls = open_socket ∷ (close_socket ∷ []) }
        else record {
          succeeds = true;
          calls =
              open_socket
              ∷ (start_thread
                  ∷ (present 0x000000FF
                      ∷ ((show_loop steps (record { pending = []; receiving = true })).calls
                          ++ (join_thread ∷ (close_socket ∷ (cleanup_renderer ∷ []))))));
        })
