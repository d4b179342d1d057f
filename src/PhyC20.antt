-- ===== src/PhyC20.antt =====
-- lib/c20.cpp and lib/c20.h: the c20 PHY. `port` is `de_clk - 1`; an array of `u16` is a function of
-- the index, and `1 << n` is `2 ^ n`.
pub mod Sram
pub mod Restore
pub mod Fraction
pub mod Sample
mod Tests
use software_vsync_modulatio.Prelude.{
  ℕ, zero, suc, ◌+◌, ◌-◌, ◌*◌, ◌^◌, Bool, true, false, not, bit_and, ◌==◌, ◌&&◌, ltb, if◌then◌else◌,
}
use software_vsync_modulatio.Prelude.Int.{ℤ, pos, pos_part}
use software_vsync_modulatio.Bits.{u16, u32, bit, genmask, reg_field_get}
use software_vsync_modulatio.Double.{Double}
use software_vsync_modulatio.Phy.{PhyOps}
use software_vsync_modulatio.Cx0.Lanes.{Cx0Bus, intel_c20_sram_read, intel_c20_sram_write}

-- `c20_phy_reg`, with the device.
pub record C20Phy (D : Type 0) : Type 0 where
  pub tx : ℕ → ℕ
  pub cmn : ℕ → ℕ
  pub frac_en : ℕ
  pub frac_quot : ℕ
  pub frac_rem : ℕ
  pub frac_den : ℕ
  pub tx_rate : ℕ
  pub multiplier : ℕ
  pub tx_rate_mult : ℕ
  pub tx_clk_div : ℕ
  pub ref_clk_mpllb_div : ℕ
  pub fb_clk_div4_en : ℕ
  pub pll_state_orig : ℕ → ℕ
  pub pll_state_mod : ℕ → ℕ
  pub device : D

-- `RAWCMN_DIG_MPLLA_CNTX_CFG_8` and its neighbours: the quotient, the remainder, and the update.
abbrev pub quot_reg : Bool → ℕ
quot_reg mpllb = if mpllb then 0x13C else 0x130

abbrev pub rem_reg : Bool → ℕ
rem_reg mpllb = if mpllb then 0x13D else 0x131

abbrev pub frac_update : Bool → ℕ
frac_update mpllb = if mpllb then 0x111 else 0x110

-- The bases of the configurations, by the context and the platform.
abbrev tx_cntx_cfg : Bool → Bool → ℕ
tx_cntx_cfg cntx is_bmg =
    if cntx then (if is_bmg then 0xCF5A else 0xCF2A) else (if is_bmg then 0xCF5E else 0xCF2E)

abbrev cmn_cntx_cfg : Bool → Bool → ℕ
cmn_cntx_cfg cntx is_bmg =
    if cntx then (if is_bmg then 0xCE89 else 0xCDA5) else (if is_bmg then 0xCE8E else 0xCDAA)

abbrev mpllb_cfg : Bool → Bool → ℕ
mpllb_cfg cntx is_bmg =
    if cntx then (if is_bmg then 0xCCB6 else 0xCB4E) else (if is_bmg then 0xCCC2 else 0xCB5A)

abbrev mplla_cfg : Bool → Bool → ℕ
mplla_cfg cntx is_bmg =
    if cntx then (if is_bmg then 0xCE4D else 0xCCE5) else (if is_bmg then 0xCE58 else 0xCCF0)

-- `REG_GENMASK` and `REG_BIT`
abbrev mask_of : ℕ → ℕ → ℕ
mask_of h l = u32 (genmask h l)

-- `tx[0] & C20_PHY_USE_MPLLB`
unfoldable pub uses_mpllb : (ℕ → ℕ) → Bool
unfolding bit
uses_mpllb tx = not (bit_and (tx 0) (u32 (bit 7)) == 0)

abbrev put : (ℕ → ℕ) → ℕ → ℕ → ℕ → ℕ
put regs i v j = if j == i then v else regs j

module _ {W : Type 0} (f : Double W) where
  open f use {of_int, literal, add, sub, mul, div, round, to_int}

  abbrev number : ℕ → W
  number n = of_int (pos n)

  -- `REF_CLK_FREQ * 1000`
  pub refclk : W
  refclk = mul (literal 384 1) (number 1000)

  pub ref_of : ℕ → ℕ → W
  unfolding refclk
  ref_of fb_clk_div4_en ref_clk_mpllb_div =
      div (mul refclk (number (2 ^ (1 + fb_clk_div4_en)))) (number (2 ^ ref_clk_mpllb_div))

  module _ {D : Type 0} (s : C20Phy D) where
    pub fraction : W
    fraction =
        if not (s.frac_en == 0) && not (s.frac_den == 0)
        then add (number s.frac_quot) (div (number s.frac_rem) (number s.frac_den))
        else number 0

    -- The clock of the dividers with the fraction `frac`.
    pub clock_with : W → W
    unfolding ref_of
    clock_with frac =
        let vco_numerator =
          mul (ref_of s.fb_clk_div4_en s.ref_clk_mpllb_div)
            (add (mul (mul (number s.multiplier) (number 1)) (number (2 ^ 15))) frac) in
        let vco = div (div vco_numerator (number (2 ^ 17))) (number 10) in
        mul (div (div vco (number (2 ^ s.tx_rate))) (number (2 ^ s.tx_clk_div)))
          (number (2 ^ s.tx_rate_mult))

    pub pll_clock_of : W
    unfolding fraction clock_with
    pll_clock_of = clock_with fraction

    pub frac_scaled : W → W
    unfolding ref_of
    frac_scaled pll_freq =
        let vco =
          div (mul (mul pll_freq (number (2 ^ s.tx_rate))) (number (2 ^ s.tx_clk_div)))
            (number (2 ^ s.tx_rate_mult)) in
        sub
          (div (mul (mul vco (number 10)) (number (2 ^ 17)))
            (ref_of s.fb_clk_div4_en s.ref_clk_mpllb_div))
          (number (u32 (s.multiplier * 2 ^ 15)))

    -- The new quotient and remainder; a cast of a double is taken at its bit width.
    pub dividers_of : W → ℕ × ℕ
    unfolding frac_scaled
    dividers_of pll_freq =
        let scaled = frac_scaled pll_freq in
        let quot = u32 (pos_part (to_int (round scaled))) in
        let rem =
          u32 (pos_part (to_int (round (mul (sub scaled (number quot)) (number s.frac_den))))) in
        (quot, if ltb 65535 rem then 65535 else rem)

module _ {W D : Type 0} (f : Double W) (bus : Cx0Bus D) (port : ℕ) (is_bmg : Bool) where
  pub calculate_pll_clock : C20Phy D → W × C20Phy D
  unfolding pll_clock_of
  calculate_pll_clock s = (pll_clock_of f s, s)

  pub calculate_feedback_dividers : W → C20Phy D → ℕ × C20Phy D
  unfolding dividers_of
  calculate_feedback_dividers pll_freq s =
      let (quot, rem) = dividers_of f s pll_freq in
      (0, record s { pll_state_mod = put (put s.pll_state_mod 8 (u16 quot)) 9 (u16 rem) })

  -- `INTEL_CX0_LANE0`
  abbrev sram : ℕ → D → ℕ × D
  sram addr d = intel_c20_sram_read bus port 1 addr d

  -- A loop over the registers below `base`, from `i` with `left` rounds to go.
  pub read_block : ℕ → ℕ → ℕ → (ℕ → ℕ) → D → (ℕ → ℕ) × D
  read_block zero i base regs d = (regs, d)
  read_block (suc left) i base regs d =
      let (value, d') = sram (base - i) d in read_block left (i + 1) base (put regs i value) d'

  -- The three blocks: the context, `tx` with its rate, and `cmn`.
  pub read_config : C20Phy D → Bool × C20Phy D
  unfolding read_block genmask bit
  read_config s =
      let (rate, d₁) = bus.bus_read port 1 0xD00 s.device in
      let cntx = not (bit_and rate (bit 0) == 0) in
      let (tx, d₂) = read_block 3 0 (tx_cntx_cfg cntx is_bmg) s.tx d₁ in
      let (cmn, d₃) = read_block 4 0 (cmn_cntx_cfg cntx is_bmg) s.cmn d₂ in
      (
        cntx,
        record s { tx = tx; tx_rate = reg_field_get (mask_of 2 0) (tx 0); cmn = cmn; device = d₃ },
      )

  -- The registers of one PLL, then the quotient and the remainder from its own registers.
  pub read_pll : Bool → ℕ → C20Phy D → C20Phy D
  unfolding read_block
  read_pll mpllb base s =
      let (regs, d₁) = read_block 10 0 base s.pll_state_orig s.device in
      let copied = λ (j : ℕ). if ltb j 10 then regs j else s.pll_state_mod j in
      let (quot, d₂) = sram (quot_reg mpllb) d₁ in
      let (rem, d₃) = sram (rem_reg mpllb) d₂ in
      record s {
        pll_state_orig = put (put regs 8 quot) 9 rem;
        pll_state_mod = put (put copied 8 quot) 9 rem;
        device = d₃;
      }

  pub fields_of_mpllb : C20Phy D → C20Phy D
  unfolding genmask bit
  fields_of_mpllb s = record s {
    tx_rate_mult = 1;
    fb_clk_div4_en = 0;
    frac_en = reg_field_get (u32 (bit 13)) (s.pll_state_orig 6);
    frac_quot = s.pll_state_orig 8;
    frac_rem = s.pll_state_orig 9;
    frac_den = s.pll_state_orig 7;
    multiplier = reg_field_get (mask_of 11 0) (s.pll_state_orig 0);
    tx_clk_div = reg_field_get (mask_of 15 13) (s.pll_state_orig 0);
    ref_clk_mpllb_div = reg_field_get (mask_of 12 10) (s.pll_state_orig 6);
  }

  -- The quotient, the remainder and the denominator are not set here.
  pub fields_of_mplla : C20Phy D → C20Phy D
  unfolding genmask bit
  fields_of_mplla s = record s {
    tx_rate_mult = 1;
    frac_en = reg_field_get (u32 (bit 14)) (s.pll_state_orig 6);
    multiplier = reg_field_get (mask_of 11 0) (s.pll_state_orig 0);
    tx_clk_div = reg_field_get (mask_of 10 8) (s.pll_state_orig 1);
    ref_clk_mpllb_div = reg_field_get (mask_of 12 10) (s.pll_state_orig 6);
    fb_clk_div4_en = reg_field_get (u32 (bit 13)) (s.pll_state_orig 0);
  }

  pub read_registers : C20Phy D → C20Phy D
  unfolding read_config read_pll fields_of_mpllb fields_of_mplla uses_mpllb
  read_registers s =
      let (cntx, s') = read_config s in
      if uses_mpllb s'.tx
      then fields_of_mpllb (read_pll true (mpllb_cfg cntx is_bmg) s')
      else fields_of_mplla (read_pll false (mplla_cfg cntx is_bmg) s')

  pub write_dividers : Bool → (ℕ → ℕ) → D → D
  write_dividers mpllb regs d = intel_c20_sram_write bus port 1 (frac_update mpllb) 1 (
      intel_c20_sram_write bus port 1 (rem_reg mpllb) (u16 (regs 9))
        (intel_c20_sram_write bus port 1 (quot_reg mpllb) (u16 (regs 8)) d))

  pub program_mmio : Bool → C20Phy D → ℕ × C20Phy D
  unfolding write_dividers uses_mpllb
  program_mmio modified s = (
    0,
    record s {
      device =
          write_dividers (uses_mpllb s.tx) (if modified then s.pll_state_mod else s.pll_state_orig)
            s.device;
    },
  )

  -- The virtual functions of the class.
  unfoldable pub c20 : PhyOps W (C20Phy D)
  c20 = record {
    calculate_pll_clock = calculate_pll_clock;
    calculate_feedback_dividers = calculate_feedback_dividers;
    program_mmio = program_mmio;
    read_registers = read_registers;
  }
