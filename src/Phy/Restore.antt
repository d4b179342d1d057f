-- ===== src/Phy/Restore.antt =====
-- The registers that a PHY saves are the registers that it gives back.
use software_vsync_modulatio.Prelude.{
  ℕ, zero, suc, ◌+◌, ◌≡◌, refl, ◌∙◌, Bool, true, false, ◌==◌, arith, if◌then◌else◌,
}
use software_vsync_modulatio.Prelude.Int.{ℤ, pos_part}
use software_vsync_modulatio.Double.{Double}
use software_vsync_modulatio.Phy.{
  PhyOps, Phys, apply_frequency, step_loop, set_pll_clock_from, steps_of, step_size_of, program_phy,
  prepared, commit_clock, reset_phy_regs, calc_steps_to_sync, chosen_shift,
}

-- What a concrete PHY promises: `live` is what its registers hold, and `saved` what it has saved.
pub record IsRestorable {W S R : Type 0} (ops : PhyOps W S) (live saved : S → R) : Type 0 where
  pub read_saves : (s : S) → saved (ops.read_registers s) ≡ live s
  pub read_keeps : (s : S) → live (ops.read_registers s) ≡ live s
  pub clock_keeps : (s : S) → live (ops.calculate_pll_clock s).1 ≡ live s
  pub clock_keeps_saved : (s : S) → saved (ops.calculate_pll_clock s).1 ≡ saved s
  pub dividers_keep : (c : W) (s : S) → live (ops.calculate_feedback_dividers c s).1 ≡ live s
  pub dividers_keep_saved :
      (c : W) (s : S) → saved (ops.calculate_feedback_dividers c s).1 ≡ saved s
  pub program_keeps_saved : (m : Bool) (s : S) → saved (ops.program_mmio m s).1 ≡ saved s
  pub program_restores : (s : S) → live (ops.program_mmio false s).1 ≡ saved s

module _ {W S R : Type 0} (f : Double W) (ops : PhyOps W S) {live saved : S → R}
    (laws : IsRestorable ops live saved) where
  apply_frequency-saved :
      (commit : Bool) (c : W) (s : S) → saved (apply_frequency f ops commit c s).1 ≡ saved s
  unfolding apply_frequency
  apply_frequency-saved commit c s = ground (
    arith,
    laws.dividers_keep_saved c s,
    laws.program_keeps_saved true (ops.calculate_feedback_dividers c s).1,
  )

  apply_frequency-live : (c : W) (s : S) → live (apply_frequency f ops false c s).1 ≡ live s
  unfolding apply_frequency
  apply_frequency-live c s = ground (arith, laws.dividers_keep c s)

  step_loop-saved :
      (stops : ℕ → Bool) (commit : Bool) (target size : W) (n i : ℕ) (clock : W) (s : S)
      → saved (step_loop f ops stops commit target size n i clock s).1 ≡ saved s
  unfolding step_loop
  step_loop-saved stops commit target size zero i clock s = refl
  step_loop-saved stops commit target size (suc n) i clock s = ground (
    arith,
    apply_frequency-saved commit next s,
    step_loop-saved stops commit target size n (i + 1) next (apply_frequency f ops commit next s).1,
  )
    where
      next : W
      next = if n == 0 then target else f.add clock size

  set_pll_clock_from-saved :
      (stops : ℕ → Bool) (current target shift : W) (commit : Bool) (s : S)
      → saved (set_pll_clock_from f ops stops current target shift commit s).1 ≡ saved s
  unfolding set_pll_clock_from
  set_pll_clock_from-saved stops current target shift commit s = ground (
    arith,
    step_loop-saved stops commit target (step_size_of f ops current target shift)
        (pos_part (steps_of f ops current target shift)) 0 current s,
  )

  pub prepared-saved :
      (td s1 s2 : W) (st : ℤ) (p : Phys W S)
      → (saved (prepared f ops td s1 s2 st p).hw ≡ live p.hw)
        × (live (prepared f ops td s1 s2 st p).hw ≡ live p.hw)
  unfolding prepared
  prepared-saved td s1 s2 st p = (
    laws.clock_keeps_saved (ops.read_registers p.hw) ∙ laws.read_saves p.hw,
    laws.clock_keeps (ops.read_registers p.hw) ∙ laws.read_keeps p.hw,
  )

  commit_clock-saved :
      (stops : ℕ → Bool) (n : ℕ) (w : ℤ) (reset : Bool) (p : Phys W S)
      → saved (commit_clock f ops stops n w reset p).1.hw ≡ saved p.hw
  unfolding commit_clock
  commit_clock-saved stops n w reset p =
      ground (
        arith,
        set_pll_clock_from-saved stops p.pll_freq_orig p.pll_freq_mod p.used_shift true p.hw,
      )

  -- The saved registers after `program_phy` are those that were live before it.
  pub program_phy-saved :
      (stops : ℕ → Bool) (td s1 s2 : W) (st w : ℤ) (reset commit : Bool) (p : Phys W S)
      → p.has_ds ≡ true
      → saved (program_phy f ops stops td s1 s2 st w reset commit p).1.hw ≡ live p.hw
  unfolding program_phy
  program_phy-saved stops td s1 s2 st w reset commit p ds = ground (
    arith,
    prepared-saved td s1 s2 st p,
    commit_clock-saved stops (calc_steps_to_sync f ops td (chosen_shift f ops td (f.fabs s1) s2 st))
        w reset (prepared f ops td s1 s2 st p),
  )

  -- `reset_phy_regs` puts the saved registers back, whatever the stepping before it does.
  pub reset_phy_regs-live :
      (stops : ℕ → Bool) (p : Phys W S) → live (reset_phy_regs f ops stops p).hw ≡ saved p.hw
  unfolding reset_phy_regs
  reset_phy_regs-live stops p =
      laws.program_restores _
      ∙ set_pll_clock_from-saved stops p.pll_freq_mod p.pll_freq_orig p.used_shift true p.hw

  pub reset_phy_regs-saved :
      (stops : ℕ → Bool) (p : Phys W S) → saved (reset_phy_regs f ops stops p).hw ≡ saved p.hw
  unfolding reset_phy_regs
  reset_phy_regs-saved stops p =
      laws.program_keeps_saved false _
      ∙ set_pll_clock_from-saved stops p.pll_freq_mod p.pll_freq_orig p.used_shift true p.hw

  -- For every PHY class that keeps the laws IsRestorable, and a PHY with a DDI: a reset after
  -- program_phy gives the registers the values from before it, for any arguments, any result and
  -- any shutdown on the way.
  pub reset_phy_regs-program_phy :
      (stops stops' : ℕ → Bool) (td s1 s2 : W) (st w : ℤ) (reset commit : Bool) (p : Phys W S)
      → p.has_ds ≡ true
      → live
          (reset_phy_regs f ops stops' (program_phy f ops stops td s1 s2 st w reset commit p).1).hw
        ≡ live p.hw
  reset_phy_regs-program_phy stops stops' td s1 s2 st w reset commit p ds =
      reset_phy_regs-live stops' _ ∙ program_phy-saved stops td s1 s2 st w reset commit p ds

  -- For every PHY class that keeps the laws IsRestorable, and a PHY with a DDI: without commit,
  -- program_phy succeeds, arms no timer and changes no register.
  pub program_phy_dry_run :
      (stops : ℕ → Bool) (td s1 s2 : W) (st w : ℤ) (reset : Bool) (p : Phys W S)
      → p.has_ds ≡ true
      → ((program_phy f ops stops td s1 s2 st w reset false p).0 ≡ 0)
        × ((program_phy f ops stops td s1 s2 st w reset false p).1.timer ≡ p.timer)
        × (live (program_phy f ops stops td s1 s2 st w reset false p).1.hw ≡ live p.hw)
  unfolding program_phy prepared
  program_phy_dry_run stops td s1 s2 st w reset p ds =
      (rw ds, rw ds, rw ds (laws.clock_keeps (ops.read_registers p.hw) ∙ laws.read_keeps p.hw))
