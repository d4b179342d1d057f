-- ===== src/PhyC20/Fraction.antt =====
-- The fraction of the clock of a c20 PHY that runs on MPLLA.
use software_vsync_modulatio.Prelude.{ℕ, ◌≡◌, refl, ap, ◌∙◌, Bool, false, arith}
use software_vsync_modulatio.Prelude.Int.{pos}
use software_vsync_modulatio.Double.{Double}
use software_vsync_modulatio.Cx0.Lanes.{Cx0Bus}
use software_vsync_modulatio.PhyC20.{
  C20Phy, calculate_pll_clock, read_registers, read_config, read_pll, fields_of_mplla, uses_mpllb,
  pll_clock_of, clock_with, fraction, mplla_cfg,
}

module _ {W D : Type 0} (f : Double W) (bus : Cx0Bus D) (port : ℕ) (is_bmg : Bool) (s : C20Phy D)
    (mplla : uses_mpllb (read_config f bus port is_bmg s).1.tx ≡ false) where
  read_mplla :
      read_registers f bus port is_bmg s
      ≡ fields_of_mplla f bus port is_bmg (
          read_pll f bus port is_bmg false
            (mplla_cfg (read_config f bus port is_bmg s).0 is_bmg)
            (read_config f bus port is_bmg s).1)
  unfolding read_registers
  read_mplla = rw mplla refl

  denominator_kept : (read_registers f bus port is_bmg s).frac_den ≡ s.frac_den
  unfolding fields_of_mplla read_pll read_config
  denominator_kept = ap (λ (r : C20Phy D). r.frac_den) read_mplla

  no_fraction : s.frac_den ≡ 0 → fraction f (read_registers f bus port is_bmg s) ≡ f.of_int (pos 0)
  unfolding fraction
  no_fraction h = rw (denominator_kept ∙ h) (ground arith)

  -- For a PHY whose transmitter does not select MPLLB, and whose denominator was 0 before the
  -- registers were read: the clock computed after the reading is that of a fraction of 0, whatever
  -- the fraction in the registers.
  pub calculate_pll_clock-mplla :
      s.frac_den ≡ 0
      → (calculate_pll_clock f bus port is_bmg (read_registers f bus port is_bmg s)).0
        ≡ clock_with f (read_registers f bus port is_bmg s) (f.of_int (pos 0))
  unfolding calculate_pll_clock pll_clock_of
  calculate_pll_clock-mplla h =
      ap (clock_with f (read_registers f bus port is_bmg s)) (no_fraction h)
