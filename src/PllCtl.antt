-- ===== src/PllCtl.antt =====
-- pllctl/pllctl.cpp: a program that sets the clock of one pipe, to a frequency or until a refresh
-- period is met, or synchronises the pipe once. What the library and the system return is the
-- record `Env`; the calls with effects outside are a list, in order.
pub mod Adjust
mod Tests
use software_vsync_modulatio.Prelude.{
  ℕ, zero, suc, ◌+◌, Bool, true, false, List, [], ◌∷◌, ◌++◌, map, ◌==◌, ◌&&◌, if◌then◌else◌,
}
use software_vsync_modulatio.Prelude.Int.{ℤ, pos}
use software_vsync_modulatio.Double.{Double}

-- What `getopt_long` gives, with the converted argument; `malformed` is one that `std::stoi` or
-- `std::stod` refuses, and `opt_other` one that sets nothing here: -v, -e and -n.
pub data Opt (W : Type 0) : Type 0 where
  opt_p opt_d opt_t opt_w : ℤ → Opt W
  opt_s opt_x opt_refresh opt_f : W → Opt W
  opt_r opt_c opt_m opt_hw opt_h opt_other opt_unknown malformed : Opt W

-- The variables of `main` that the options set.
pub record Config (W : Type 0) : Type 0 where
  pub pipe : ℤ
  pub delta : ℤ
  pub shift : W
  pub shift2 : W
  pub frequency : W
  pub refresh_period : W
  pub reset : Bool
  pub commit : Bool
  pub m_n : Bool
  pub hardware_ts : Bool
  pub step_threshold : ℤ
  pub wait_between_steps : ℤ

-- The end of the loop over the options: the settings, an exit, or an uncaught exception.
pub data Parsed (W : Type 0) : Type 0 where
  ready : Config W → Parsed W
  exits : ℕ → Parsed W
  throws : Parsed W

pub data Call (W : Type 0) : Type 0 where
  init_lib uninit_lib create_thread join_thread measure : Call W
  set_clock : W → Call W
  synchronize : W → Bool → Bool → Call W

-- `interval i` is what `get_vblank_interval` returns after `i` changes of the clock, and
-- `continues i` is `thread_continue` when the loop tests it after `i` rounds.
pub record Env (W : Type 0) : Type 0 where
  pub init_result : ℕ
  pub create_result : ℕ
  pub clock : W
  pub interval : ℕ → W
  pub continues : ℕ → Bool

pub record Run (W : Type 0) : Type 0 where
  pub status : ℕ
  pub calls : List (Call W)

-- Where the loop for a refresh period ends, and the clocks that it has set.
pub record Adjusted (W : Type 0) : Type 0 where
  pub iteration : ℕ
  pub pll_clock : W
  pub clocks : List W

abbrev pub max_iterations : ℕ
max_iterations = 1000

module _ {W : Type 0} (f : Double W) where
  open f use {of_int, literal, add, sub, mul, div, fabs, lt}

  pub defaults : Config W
  defaults = record {
    pipe = pos 0;
    delta = pos 1000;
    shift = literal 1 2;
    shift2 = literal 1 1;
    frequency = literal 0 1;
    refresh_period = literal 0 1;
    reset = true;
    commit = true;
    m_n = false;
    hardware_ts = false;
    step_threshold = pos 1000;
    wait_between_steps = pos 50;
  }

  -- One turn of the `switch`.
  pub set_option : Opt W → Config W → Parsed W
  set_option (opt_p n) c = ready (record c { pipe = n })
  set_option (opt_d n) c = ready (record c { delta = n })
  set_option (opt_s x) c = ready (record c { shift = x })
  set_option (opt_x x) c = ready (record c { shift2 = x })
  set_option opt_r c = ready (record c { reset = false })
  set_option opt_c c = ready (record c { commit = false })
  set_option opt_m c = ready (record c { m_n = true })
  set_option (opt_t n) c = ready (record c { step_threshold = n })
  set_option (opt_w n) c = ready (record c { wait_between_steps = n })
  set_option (opt_refresh x) c = ready (record c { refresh_period = x })
  set_option (opt_f x) c = ready (record c { frequency = x })
  set_option opt_hw c = ready (record c { hardware_ts = true })
  set_option opt_other c = ready c
  set_option opt_h c = exits 0
  set_option opt_unknown c = exits 1
  set_option malformed c = throws

  pub parse_options : List (Opt W) → Config W → Parsed W
  parse_options [] c = ready c
  parse_options (o ∷ os) c = elim (set_option o c) [
    | ready c' ↦ parse_options os c'
    | exits n ↦ exits n
    | throws ↦ throws
  ]

  -- 0.001 percent more or less.
  pub changed : Bool → W → W
  changed slower clock =
      let part = div (literal 1 3) (literal 100 0) in
      if slower then mul clock (sub (literal 1 0) part) else mul clock (add (literal 1 0) part)

  module _ (env : Env W) (refresh_period : W) where
    -- The interval in microseconds after `i` changes.
    pub vblank_interval : ℕ → W
    vblank_interval i = mul (env.interval i) (literal 1000 0)

    pub is_far : W → Bool
    is_far interval = lt (literal 1 1) (fabs (sub interval refresh_period))

    pub next_clock : W → W → W
    unfolding changed
    next_clock interval clock = changed (lt (of_int (pos 0)) (sub refresh_period interval)) clock

    -- The loop after `i` rounds, with `left` more at most.
    pub adjust : ℕ → ℕ → W → W → Adjusted W
    unfolding is_far next_clock vblank_interval
    adjust zero i clock interval = record { iteration = i; pll_clock = clock; clocks = [] }
    adjust (suc left) i clock interval =
        let clock' = next_clock interval clock in
        let rest = adjust left (i + 1) clock' (vblank_interval (i + 1)) in
        if is_far interval && env.continues i
        then record rest { clocks = clock' ∷ rest.clocks }
        else record { iteration = i; pll_clock = clock; clocks = [] }

  module _ (env : Env W) (c : Config W) where
    -- Setting the frequency, meeting the refresh period, or synchronising.
    pub work : List (Call W)
    unfolding adjust vblank_interval
    work =
        if lt (literal 0 1) c.frequency
        then set_clock c.frequency ∷ []
        else (if lt (literal 0 1) c.refresh_period
            then map set_clock
                (adjust env c.refresh_period max_iterations 0 env.clock
                  (vblank_interval env c.refresh_period 0)).clocks
            else synchronize (div (of_int c.delta) (literal 1000 0)) c.reset c.commit ∷ [])

    -- What `main` does after the options.
    pub run : Run W
    unfolding work
    run =
        if env.init_result == 0
        then (if c.commit
            then (if env.create_result == 0
                then record {
                  status = 0;
                  calls =
                      init_lib
                      ∷ (create_thread ∷ (work ++ (join_thread ∷ (measure ∷ (uninit_lib ∷ [])))));
                }
                else record { status = 1; calls = init_lib ∷ (create_thread ∷ []) })
            else record { status = 0; calls = init_lib ∷ (work ++ (uninit_lib ∷ [])) })
        else record { status = 1; calls = init_lib ∷ [] }
