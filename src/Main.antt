-- ===== src/Main.antt =====
-- swgenlock/main.cpp: the options of the program, and what it does with them. A text that
-- `std::stoi` or `std::stod` refuses throws, which ends the process.
pub mod Flow
pub mod Starts
pub mod Ends
pub mod Check
mod Tests
use software_vsync_modulatio.Prelude.{
  ℕ, Bool, true, false, Option, none, some, List, [], ◌∷◌, ◌||◌, if◌then◌else◌,
}
use software_vsync_modulatio.Prelude.Int.{ℤ, pos, negsuc, ltb_ℤ}
use software_vsync_modulatio.Double.{Double}
use software_vsync_modulatio.Options.{Text}

-- The values of `-m`: the three modes, and any other text.
pub data Mode : Type 0 where
  pri sec pipelock other : Mode

-- What `getopt_long` gives, with the converted argument.
pub data Opt (W : Type 0) : Type 0 where
  opt_m : Mode → Opt W
  opt_i opt_c opt_p opt_v opt_e : Text → Opt W
  opt_primary opt_d opt_k opt_t opt_w : ℤ → Opt W
  opt_s opt_x opt_l opt_f opt_o : W → Opt W
  opt_n opt_hw opt_monitor opt_h opt_unknown malformed : Opt W

-- The variables of `main` that the options set.
pub record Config (W : Type 0) : Type 0 where
  pub mode : Mode
  pub interface_or_ip : Text
  pub mac_address : Text
  pub pipes_arg : Text
  pub primary_pipe : ℤ
  pub delta : ℤ
  pub time_period : ℤ
  pub step_threshold : ℤ
  pub wait_between_steps : ℤ
  pub shift : W
  pub shift2 : W
  pub frequency : W
  pub learning_rate : W
  pub overshoot_ratio : W
  pub m_n : Bool
  pub hardware_ts : Bool
  pub monitoring : Bool

-- The end of the loop: the settings, an exit with its status, or an uncaught exception.
pub data Parsed (W : Type 0) : Type 0 where
  ready : Config W → Parsed W
  exits : ℕ → Parsed W
  throws : Parsed W

module _ {W : Type 0} (f : Double W) where
  pub defaults : Config W
  defaults = record {
    mode = pri;
    interface_or_ip = b'1' ∷ b'2' ∷ b'7' ∷ b'.' ∷ b'0' ∷ b'.' ∷ b'0' ∷ b'.' ∷ b'1' ∷ [];
    mac_address = [];
    pipes_arg = b'0' ∷ [];
    primary_pipe = negsuc 0;
    delta = pos 100;
    time_period = pos 480;
    step_threshold = pos 1000;
    wait_between_steps = pos 50;
    shift = f.literal 1 2;
    shift2 = f.literal 0 1;
    frequency = f.literal 0 1;
    learning_rate = f.literal 1 4;
    overshoot_ratio = f.literal 0 1;
    m_n = false;
    hardware_ts = false;
    monitoring = false;
  }

  -- One turn of the `switch`.
  pub set_option : Opt W → Config W → Parsed W
  set_option (opt_m m) c = ready (record c { mode = m })
  set_option (opt_i t) c = ready (record c { interface_or_ip = t })
  set_option (opt_c t) c = ready (record c { mac_address = t })
  set_option (opt_p t) c = ready (record c { pipes_arg = t })
  set_option (opt_primary n) c =
      if ltb_ℤ n (pos 0) || ltb_ℤ (pos 3) n then exits 1 else ready (record c { primary_pipe = n })
  set_option (opt_d n) c = ready (record c { delta = n })
  set_option (opt_s x) c = ready (record c { shift = x })
  set_option (opt_x x) c = ready (record c { shift2 = x })
  set_option (opt_k n) c = ready (record c { time_period = n })
  set_option (opt_l x) c = ready (record c { learning_rate = x })
  set_option opt_n c = ready (record c { m_n = true })
  set_option (opt_f x) c = ready (record c { frequency = x })
  set_option (opt_o x) c = ready (record c { overshoot_ratio = x })
  set_option (opt_t n) c = ready (record c { step_threshold = n })
  set_option (opt_w n) c = ready (record c { wait_between_steps = n })
  set_option opt_hw c = ready (record c { hardware_ts = true })
  set_option opt_monitor c = ready (record c { monitoring = true })
  set_option (opt_v t) c = ready c
  set_option (opt_e t) c = ready c
  set_option opt_h c = exits 0
  set_option opt_unknown c = exits 1
  set_option malformed c = throws

  -- The loop over the options; the device and the log level go to parts outside the model.
  pub parse_options : List (Opt W) → Config W → Parsed W
  parse_options [] c = ready c
  parse_options (o ∷ os) c = elim (set_option o c) [
    | ready c' ↦ parse_options os c'
    | exits n ↦ exits n
    | throws ↦ throws
  ]
