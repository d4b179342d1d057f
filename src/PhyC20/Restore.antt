-- ===== src/PhyC20/Restore.antt =====
-- The class of the c20 PHY over its memory gives back every word but the update registers, which
-- it only triggers.
use software_vsync_modulatio.Prelude.{ℕ, ◌≡◌, refl, Bool, true, false, ◌==◌, ◌||◌, if◌then◌else◌}
use software_vsync_modulatio.Bits.{u16}
use software_vsync_modulatio.Double.{Double}
use software_vsync_modulatio.Cx0.Lanes.{Cx0Bus}
use software_vsync_modulatio.PhyC20.{
  C20Phy, read_registers, read_config, read_pll, fields_of_mplla, uses_mpllb, quot_reg, rem_reg,
  frac_update, mplla_cfg,
}
use software_vsync_modulatio.PhyC20.Sram.{IsSram}

abbrev is_update : ℕ → Bool
is_update k = k == frac_update true || k == frac_update false

module _ {W D : Type 0} (f : Double W) (bus : Cx0Bus D) (port : ℕ) (is_bmg : Bool)
    {latch memory : ℕ → D → ℕ} (law : IsSram bus port latch memory) where
  -- The memory without the update registers.
  abbrev pub live : C20Phy D → ℕ → ℕ
  live s k = if is_update k then 0 else memory k s.device

  -- The memory with the quotient and the remainder that were read.
  abbrev pub saved : C20Phy D → ℕ → ℕ
  saved s k =
      if k == quot_reg (uses_mpllb s.tx)
      then u16 (s.pll_state_orig 8)
      else (if k == rem_reg (uses_mpllb s.tx) then u16 (s.pll_state_orig 9) else live s k)

  -- The reading by the PLL in use, with the configuration read first.
  module _ (s : C20Phy D) where
    abbrev cntx : Bool
    cntx = (read_config f bus port is_bmg s).0

    abbrev configured : C20Phy D
    configured = (read_config f bus port is_bmg s).1

    pub read_mplla :
        uses_mpllb configured.tx ≡ false
        → read_registers f bus port is_bmg s
          ≡ fields_of_mplla f bus port is_bmg
              (read_pll f bus port is_bmg false (mplla_cfg cntx is_bmg) configured)
    unfolding read_registers
    read_mplla e = rw e refl

  abbrev chosen : Bool → C20Phy D → ℕ → ℕ
  chosen m s = if m then s.pll_state_mod else s.pll_state_orig
