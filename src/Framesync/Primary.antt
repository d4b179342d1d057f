-- ===== src/Framesync/Primary.antt =====
-- framesync/primary.cpp: the side that decides when the colour changes. The clocks and the results of
-- the calls are inputs.
pub mod Numbered
mod Tests
use software_vsync_modulatio.Prelude.{
  ℕ, ◌+◌, ◌-◌, ◌*◌, ◌%◌, ◌^◌, Bool, true, false, not, List, [], ◌∷◌, ◌++◌, ltb, ◌&&◌, ◌||◌,
  if◌then◌else◌,
}
use software_vsync_modulatio.Framesync.{
  ColorUpdate, Call, Run, open_socket, close_socket, cleanup_renderer, broadcast,
  sleep_until_realtime_us, present, demo_color, demo_num_colors,
}

-- The settings that the loop reads; both numbers are not negative.
pub record Config : Type 0 where
  pub interval_ms : ℕ
  pub schedule_ahead_ms : ℕ
  pub cycle_colors : Bool
  pub interface_given : Bool

-- Which steps before the loop work.
pub record Setup : Type 0 where
  pub makes_socket : Bool
  pub group_is_valid : Bool
  pub sets_ttl : Bool
  pub interface_is_valid : Bool
  pub sets_interface : Bool
  pub renderer_works : Bool

-- What a turn of the loop meets: the window, the wait for a vblank, the monotonic and the real-time
-- clock, the wait before the new colour is shown, and the monotonic clock at the end.
pub record Turn : Type 0 where
  pub should_close : Bool
  pub vblank_comes : Bool
  pub now : ℕ
  pub realtime : ℕ
  pub shows : Bool
  pub now_again : ℕ

pub record State : Type 0 where
  pub sequence_num : ℕ
  pub color_index : ℕ
  pub last_change_time : ℕ

-- It is time for the next change.
pub is_due : Config → State → Turn → Bool
is_due c s t = not (ltb ((t.now + 2 ^ 64 - s.last_change_time) % 2 ^ 64) (c.interval_ms * 1000))

pub next_index : Config → State → ℕ
next_index c s = if c.cycle_colors then (s.color_index + 1) % demo_num_colors else s.color_index

pub update_msg : Config → State → Turn → ColorUpdate
unfolding next_index
update_msg c s t = record {
  target_timestamp_us = (t.realtime + c.schedule_ahead_ms * 1000) % 2 ^ 64;
  color = demo_color (next_index c s);
  pattern_type = 0;
  sequence_num = (s.sequence_num + 1) % 2 ^ 64;
}

-- The calls of a change of the colour, and the state after it.
pub change_calls : ColorUpdate → Bool → List Call
change_calls m shows =
    broadcast m
    ∷ (sleep_until_realtime_us m.target_timestamp_us ∷ (if shows then present m.color ∷ [] else []))

pub changed : Config → State → Turn → State
unfolding next_index
changed c s t = record {
  sequence_num = (s.sequence_num + 1) % 2 ^ 64;
  color_index = next_index c s;
  last_change_time = t.now_again;
}

-- The loop over the turns until the shutdown.
pub coordinate : Config → State → List Turn → List Call
unfolding is_due update_msg change_calls changed
coordinate c s [] = []
coordinate c s (t ∷ ts) =
    let same = coordinate c s ts in
    let next = coordinate c (changed c s t) ts in
    if t.should_close || not t.vblank_comes
    then []
    else (if is_due c s t then change_calls (update_msg c s t) t.shows ++ next else same)

-- The steps before the loop; each failure but that of the socket closes it.
pub is_ready : Config → Setup → Bool
is_ready c u =
    u.group_is_valid
    && (u.sets_ttl
        && ((not c.interface_given || u.interface_is_valid && u.sets_interface)
            && u.renderer_works))

-- `run_primary`, with the monotonic clock at its start.
pub run_primary : Config → Setup → ℕ → List Turn → Run
unfolding coordinate is_ready
run_primary c u start turns =
    if not u.makes_socket
    then record { succeeds = false; calls = [] }
    else (if not (is_ready c u)
        then record { succeeds = false; calls = open_socket ∷ (close_socket ∷ []) }
        else (let s : State = record {
          sequence_num = 0;
          color_index = 0;
          last_change_time = start;
        } in
            record {
              succeeds = true;
              calls =
                  open_socket
                  ∷ (present (demo_color 0)
                      ∷ (coordinate c s turns ++ (close_socket ∷ (cleanup_renderer ∷ []))));
            }))
