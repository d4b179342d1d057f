-- ===== src/Phy.antt =====
-- lib/phy.cpp and lib/phy.h: the base class of the PHYs. The virtual functions are an interface
-- over the state `S` of the PHY (its saved registers and the hardware); sleeps and log lines have no
-- part in the model.
pub mod Stepping
pub mod Restore
pub mod Waiting
use software_vsync_modulatio.Prelude.{
  ℕ, zero, suc, ◌+◌, ◌-◌, Bool, true, false, not, Option, none, some, List, [], ◌∷◌, ◌==◌, ◌&&◌,
  ◌||◌, if◌then◌else◌,
}
use software_vsync_modulatio.Prelude.Int.{ℤ, pos, negsuc, ltb_ℤ, pos_part}
use software_vsync_modulatio.Prelude.Signed.{magnitude, ◌==ℤ◌}
use software_vsync_modulatio.Double.{Double}

-- The virtual functions; an `int` result is 0 on success.
pub record PhyOps (W S : Type 0) : Type 0 where
  pub calculate_pll_clock : S → W × S
  pub calculate_feedback_dividers : W → S → ℕ × S
  pub program_mmio : Bool → S → ℕ × S
  pub read_registers : S → S

-- The members of `phys`, with the concrete PHY's state and the timer: `some ms` while one is armed.
pub record Phys (W S : Type 0) : Type 0 where
  pub done : Bool
  pub pipe : ℤ
  pub phy_type : ℤ
  pub has_ds : Bool
  pub pll_freq_orig : W
  pub pll_freq_mod : W
  pub used_shift : W
  pub wait_between_steps : ℤ
  pub timer : Option ℕ
  pub hw : S

module _ {W S : Type 0} (f : Double W) (ops : PhyOps W S) where
  open f use {of_int, literal, add, sub, mul, div, fabs, round, ceil, lt, le, eq, to_int}

  abbrev number : ℤ → W
  number n = of_int n

  -- One step of the loop: the dividers for `freq`, then the registers if `commit`.
  unfoldable pub apply_frequency : Bool → W → S → ℕ × S
  apply_frequency commit freq s =
      let (r, s') = ops.calculate_feedback_dividers freq s in
      if r == 0
      then (if commit
          then (let (q, s'') = ops.program_mmio true s' in (if q == 0 then (0, s'') else (1, s'')))
          else (0, s'))
      else (1, s')

  -- The loop at `i`, with `left` rounds to go, so that `left` is 1 in the last. `stops i` is what
  -- `lib_client_done` holds at the loop's test.
  unfoldable pub step_loop : (ℕ → Bool) → Bool → W → W → ℕ → ℕ → W → S → ℕ × S
  step_loop stops commit target step_size zero i clock s = (0, s)
  step_loop stops commit target step_size (suc left) i clock s =
      let next : W = if left == 0 then target else add clock step_size in
      let (r, s') = apply_frequency commit next s in
      let rest = step_loop stops commit target step_size left (i + 1) next s' in
      if stops i then (0, s) else (if r == 0 then rest else (1, s'))

  -- The change in percent, to four places.
  unfoldable pub percent_diff : W → W → W
  percent_diff current target =
      let p = mul (div (fabs (sub target current)) current) (number (pos 100)) in
      div (round (mul p (number (pos 10000)))) (number (pos 10000))

  -- `steps` where the change exceeds the shift.
  unfoldable pub large_steps : W → W → W → ℤ
  large_steps current target shift =
      let direction = if lt current target then number (pos 1) else number (negsuc 0) in
      let ideal = mul (div (mul current shift) (number (pos 100))) direction in
      to_int (ceil (fabs (div (sub target current) ideal)))

  unfoldable pub steps_of : W → W → W → ℤ
  steps_of current target shift =
      if lt shift (percent_diff current target) then large_steps current target shift else pos 1

  unfoldable pub step_size_of : W → W → W → W
  step_size_of current target shift =
      if lt shift (percent_diff current target)
      then (if ltb_ℤ (pos 1) (large_steps current target shift)
          then div (sub target current) (number (large_steps current target shift))
          else mul (div (mul current shift) (number (pos 100)))
              (if lt current target then number (pos 1) else number (negsuc 0)))
      else sub target current

  -- `set_pll_clock` from a known current clock.
  unfoldable pub set_pll_clock_from : (ℕ → Bool) → W → W → W → Bool → S → ℕ × S
  set_pll_clock_from stops current target shift commit s =
      if le current (number (pos 0)) || (le target (number (pos 0)) || lt shift (number (pos 0)))
      then (1, s)
      else step_loop stops commit target (step_size_of current target shift)
          (pos_part (steps_of current target shift)) 0 current s

  -- `set_pll_clock` from the clock that the registers give.
  pub set_pll_clock : (ℕ → Bool) → W → W → S → ℕ × S
  set_pll_clock stops target shift s =
      if le target (number (pos 0)) || lt shift (number (pos 0))
      then (1, s)
      else let (current, s') = ops.calculate_pll_clock (ops.read_registers s) in
        set_pll_clock_from stops current target shift true s'

  -- The shift that `program_phy` uses: `shift2` for a large difference, if it is not zero.
  unfoldable pub chosen_shift : W → W → W → ℤ → W
  chosen_shift time_diff shift shift2 step_threshold =
      if not (eq shift2 (number (pos 0)))
        && le (of_int step_threshold) (mul (fabs time_diff) (number (pos 1000)))
      then shift2
      else shift

  -- `CALC_STEPS_TO_SYNC`
  unfoldable pub calc_steps_to_sync : W → W → ℕ
  calc_steps_to_sync td s =
      if eq s (number (pos 0)) then 0 else magnitude (to_int (div (mul td (number (pos 100))) s))

  unfoldable pub new_pll_clock : W → W → W → W
  new_pll_clock time_diff shift pll_clock = add pll_clock (
      mul (div (mul shift pll_clock) (number (pos 100)))
        (if lt (number (pos 0)) time_diff then number (negsuc 0) else number (pos 1)))

  -- The object after the registers are read and the new clock is known.
  unfoldable pub prepared : W → W → W → ℤ → Phys W S → Phys W S
  prepared time_diff shift shift2 step_threshold p =
      let (pll_clock, s') = ops.calculate_pll_clock (ops.read_registers p.hw) in
      record p {
        pll_freq_orig = pll_clock;
        pll_freq_mod =
            new_pll_clock time_diff (chosen_shift time_diff (fabs shift) shift2 step_threshold)
              pll_clock;
        used_shift = fabs shift;
        hw = s';
      }

  -- Writing the new clock and arming the timer that ends it.
  unfoldable pub commit_clock : (ℕ → Bool) → ℕ → ℤ → Bool → Phys W S → ℕ × Phys W S
  commit_clock stops steps wait reset p =
      let (r, s') =
        set_pll_clock_from stops p.pll_freq_orig p.pll_freq_mod p.used_shift true p.hw in
      let p' : Phys W S = record p { hw = s' } in
      if r == 0
      then (if reset
          then (0, record p' { done = false; wait_between_steps = wait; timer = some steps })
          else (0, p'))
      else (1, p')

  unfoldable pub program_phy :
      (ℕ → Bool) → W → W → W → ℤ → ℤ → Bool → Bool → Phys W S → ℕ × Phys W S
  program_phy stops time_diff shift shift2 step_threshold wait reset commit p =
      let steps =
        calc_steps_to_sync time_diff (chosen_shift time_diff (fabs shift) shift2 step_threshold) in
      let p' = prepared time_diff shift shift2 step_threshold p in
      if p.has_ds
      then (if not commit || steps == 0 then (0, p') else commit_clock stops steps wait reset p')
      else (1, p)

  -- `reset_phy_regs()`: back by steps, then the saved registers themselves.
  pub reset_phy_regs : (ℕ → Bool) → Phys W S → Phys W S
  reset_phy_regs stops p =
      let (r, s') =
        set_pll_clock_from stops p.pll_freq_mod p.pll_freq_orig p.used_shift true p.hw in
      let (q, s'') = ops.program_mmio false s' in record p { timer = none; hw = s''; done = true }

-- What can happen between two looks of `wait_until_done` at its flags.
pub data Event : Type 0 where
  tick timer_expires shut_down : Event

module _ {W S : Type 0} (f : Double W) (ops : PhyOps W S) where
  abbrev pub always : Bool → ℕ → Bool
  always b i = b

  -- `while (!done && !lib_client_done) usleep(1000)`, and the reset on a shutdown. The timer's
  -- signal handler runs `reset_phy_regs`.
  pub wait_until_done : List Event → Phys W S → Phys W S
  wait_until_done [] p = p
  wait_until_done (tick ∷ es) p = let rest = wait_until_done es p in if p.done then p else rest
  wait_until_done (timer_expires ∷ es) p =
      let rest = wait_until_done es (reset_phy_regs f ops (always false) p) in
      if p.done then p else rest
  wait_until_done (shut_down ∷ es) p = reset_phy_regs f ops (always true) p
