-- ===== src/Framesync/Options.antt =====
-- framesync/main.cpp and framesync/demo_common.h: the options of the demonstration. A number is what
-- `atoi` makes of its argument; `getopt_long` gives the options.
pub mod Valid
mod Tests
use software_vsync_modulatio.Prelude.{ℕ, Bool, true, false, List, [], ◌∷◌, ◌||◌, if◌then◌else◌}
use software_vsync_modulatio.Prelude.Int.{ℤ, pos, ltb_ℤ}
use software_vsync_modulatio.Options.{Text}

pub data Mode : Type 0 where
  primary secondary other : Mode

pub data Opt : Type 0 where
  opt_m : Mode → Opt
  opt_g opt_if opt_d : Text → Opt
  opt_p opt_ttl opt_pipe opt_t opt_s opt_w opt_height : ℤ → Opt
  opt_f opt_v opt_n opt_c opt_h opt_unknown : Opt

-- `DemoConfig`, without the device, which is looked up.
pub record DemoConfig : Type 0 where
  pub mode : Mode
  pub pipe : ℤ
  pub interval_ms : ℤ
  pub schedule_ahead_ms : ℤ
  pub fullscreen : Bool
  pub width : ℤ
  pub height : ℤ
  pub vsync_enabled : Bool
  pub cycle_colors : Bool
  pub multicast_group : Text
  pub multicast_port : ℤ
  pub multicast_ttl : ℤ
  pub multicast_if : Text

pub data Parsed : Type 0 where
  ready : DemoConfig → Parsed
  exits : ℕ → Parsed

-- The constructor of `DemoConfig`.
pub defaults : DemoConfig
defaults = record {
  mode = primary;
  pipe = pos 0;
  interval_ms = pos 16;
  schedule_ahead_ms = pos 16;
  fullscreen = false;
  width = pos 1280;
  height = pos 720;
  vsync_enabled = true;
  cycle_colors = true;
  multicast_group = b'2' ∷ b'3' ∷ b'9' ∷ b'.' ∷ b'1' ∷ b'.' ∷ b'1' ∷ b'.' ∷ b'1' ∷ [];
  multicast_port = pos 5001;
  multicast_ttl = pos 1;
  multicast_if = [];
}

-- One turn of the `switch`.
pub set_option : Opt → DemoConfig → Parsed
set_option (opt_m primary) c = ready (record c { mode = primary })
set_option (opt_m secondary) c = ready (record c { mode = secondary })
set_option (opt_m other) c = exits 1
set_option (opt_g t) c = ready (record c { multicast_group = t })
set_option (opt_p n) c =
    if ltb_ℤ n (pos 1) || ltb_ℤ (pos 65535) n
    then exits 1
    else ready (record c { multicast_port = n })
set_option (opt_ttl n) c =
    if ltb_ℤ n (pos 1) || ltb_ℤ (pos 255) n then exits 1 else ready (record c { multicast_ttl = n })
set_option (opt_if t) c = ready (record c { multicast_if = t })
set_option (opt_pipe n) c = if ltb_ℤ n (pos 0) then exits 1 else ready (record c { pipe = n })
set_option (opt_d t) c = ready c
set_option (opt_t n) c = if ltb_ℤ n (pos 0) then exits 1 else ready (record c { interval_ms = n })
set_option (opt_s n) c =
    if ltb_ℤ n (pos 10) then exits 1 else ready (record c { schedule_ahead_ms = n })
set_option opt_f c = ready (record c { fullscreen = true })
set_option (opt_w n) c = ready (record c { width = n })
set_option (opt_height n) c = ready (record c { height = n })
set_option opt_v c = ready c
set_option opt_n c = ready (record c { vsync_enabled = false })
set_option opt_c c = ready (record c { cycle_colors = false })
set_option opt_h c = exits 0
set_option opt_unknown c = exits 1

-- The loop over the options.
pub parse_options : List Opt → DemoConfig → Parsed
unfolding set_option
parse_options [] c = ready c
parse_options (o ∷ os) c = elim (set_option o c) [
  | ready c' ↦ parse_options os c'
  | exits n ↦ exits n
]
