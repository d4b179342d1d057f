-- ===== src/Framesync.antt =====
-- framesync/demo_protocol.h and framesync/demo_common.h: the demonstration that changes the colour of
-- several displays at once, and what its two sides share.
pub mod Options
pub mod Primary
pub mod Secondary
use software_vsync_modulatio.Prelude.{ℕ, Bool, List, [], ◌∷◌, get_or}

-- `DemoColorUpdateMsg`
pub record ColorUpdate : Type 0 where
  pub target_timestamp_us : ℕ
  pub color : ℕ
  pub pattern_type : ℕ
  pub sequence_num : ℕ

abbrev pub demo_colors : List ℕ
demo_colors =
    0xFF0000FF ∷ 0x00FF00FF ∷ 0x0000FFFF ∷ 0xFFFF00FF ∷ 0xFF00FFFF ∷ 0x00FFFFFF ∷ 0xFFFFFFFF
    ∷ 0x000000FF ∷ []

abbrev pub demo_num_colors : ℕ
demo_num_colors = 8

-- `DEMO_COLORS[i]`
abbrev pub demo_color : ℕ → ℕ
demo_color i = get_or demo_colors i 0

-- The calls with effects outside; a colour is drawn and presented at once.
pub data Call : Type 0 where
  open_socket close_socket start_thread join_thread cleanup_renderer : Call
  broadcast : ColorUpdate → Call
  sleep_until_realtime_us present : ℕ → Call

pub record Run : Type 0 where
  pub succeeds : Bool
  pub calls : List Call
