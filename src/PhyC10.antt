-- ===== src/PhyC10.antt =====
-- lib/c10.cpp: the PHY of type c10. `port` is `dpll_num - 1`; an array of `u8` is a function of the index.
pub mod Restore
mod Tests
use software_vsync_modulatio.Prelude.{
  ℕ, zero, suc, ◌+◌, ◌-◌, ◌*◌, ◌/◌, ◌%◌, ◌^◌, Bool, true, bit_and, bit_or, ◌==◌, if◌then◌else◌,
}
use software_vsync_modulatio.Prelude.Int.{ℤ, pos, pos_part}
use software_vsync_modulatio.Bits.{u8, u32, bit, genmask, bf_shf, reg_field_prep}
use software_vsync_modulatio.Double.{Double}
use software_vsync_modulatio.Phy.{PhyOps}
use software_vsync_modulatio.Cx0.Lanes.{Cx0Bus}

-- `c10_phy_reg`, with the device.
pub record C10Phy (D : Type 0) : Type 0 where
  pub pll_state_orig : ℕ → ℕ
  pub pll_state_mod : ℕ → ℕ
  pub device : D

-- `PHY_C10_VDR_PLL` and `PHY_C10_VDR_CONTROL`
abbrev pub vdr_pll : ℕ → ℕ
vdr_pll idx = 0xC00 + idx

abbrev pub vdr_control : ℕ → ℕ
vdr_control idx = 0xC70 + idx - 1

abbrev pub vdr_custom_width : ℕ
vdr_custom_width = 0xD02

-- `INTEL_CX0_LANE0` and `INTEL_CX0_BOTH_LANES`
abbrev pub lane0 : ℕ
lane0 = 1

abbrev pub both_lanes : ℕ
both_lanes = 3

-- `REG_FIELD_GET8`
unfoldable pub reg_field_get8 : ℕ → ℕ → ℕ
unfolding bf_shf
reg_field_get8 mask val = u8 (bit_and val mask / 2 ^ bf_shf mask)

-- `high << 8 | low` of two bytes.
abbrev pub word : ℕ → ℕ → ℕ
word high low = bit_or (high * 2 ^ 8) low

module _ (regs : ℕ → ℕ) where
  pub frac_den : ℕ
  frac_den = word (regs 10) (regs 9)

  pub frac_quot : ℕ
  frac_quot = word (regs 12) (regs 11)

  pub frac_rem : ℕ
  frac_rem = word (regs 14) (regs 13)

  -- `C10_PLL3_MULTIPLIERH_MASK`
  pub multiplier : ℕ
  unfolding reg_field_get8 genmask
  multiplier = bit_or (reg_field_get8 (u8 (genmask 3 0)) (regs 3) * 2 ^ 8) (regs 2) / 2 + 16

  -- `C10_PLL15_TXCLKDIV_MASK`
  pub ref_clk_mpll_div : ℕ
  unfolding reg_field_get8 genmask
  ref_clk_mpll_div = reg_field_get8 (u8 (genmask 2 0)) (regs 15)

-- The two bytes of the quotient in the new registers; the others are kept.
pub with_quotient : ℕ → (ℕ → ℕ) → ℕ → ℕ
unfolding genmask
with_quotient quotient regs i =
    if i == 12
    then u8 (quotient / 2 ^ 8)
    else (if i == 11 then u8 (bit_and quotient (genmask 7 0)) else regs i)

module _ {W : Type 0} (f : Double W) where
  open f use {of_int, literal, add, mul, div, to_int}

  abbrev number : ℕ → W
  number n = of_int (pos n)

  -- A cast of a double to an unsigned integer of 64 bits.
  abbrev u64_of : W → ℕ
  u64_of x = pos_part (to_int x) % 2 ^ 64

  -- `REF_CLK_FREQ * 1000`
  pub ref_clk_freq_khz : W
  ref_clk_freq_khz = mul (literal 384 1) (number 1000)

  -- `DIV_ROUND_CLOSEST` of a double and an `uint32_t`: the sum is taken before the quotient.
  pub div_round_closest : W → ℕ → W
  div_round_closest x d = div (add x (number (d / 2))) (number d)

  -- `DIV_ROUND_CLOSEST_ULL`; a divisor of 0 is a division by zero.
  pub div_round_closest_ull : W → ℕ → ℕ
  div_round_closest_ull x d = u64_of (add x (number (d / 2))) / d

  pub pll_clock_of : (ℕ → ℕ) → W
  unfolding ref_clk_freq_khz div_round_closest frac_den frac_quot frac_rem multiplier
      ref_clk_mpll_div
  pll_clock_of regs =
      let product =
        u32 (pos_part (to_int ref_clk_freq_khz))
        * u32 (u32 (multiplier regs * 2 ^ 16) + frac_quot regs) in
      let numerator = u64_of (
        add (number product)
          (div_round_closest (mul ref_clk_freq_khz (number (frac_rem regs))) (frac_den regs))) in
      div (number numerator) (number (10 * 2 ^ (ref_clk_mpll_div regs + 16)))

  -- The new quotient, before it is cut to two bytes.
  pub feedback_quotient : (ℕ → ℕ) → W → ℕ
  unfolding ref_clk_freq_khz div_round_closest_ull frac_den frac_rem multiplier ref_clk_mpll_div
  feedback_quotient regs pll_freq =
      let scaled = u64_of (mul pll_freq (number (10 * 2 ^ (ref_clk_mpll_div regs + 16)))) in
      let rest =
        div_round_closest_ull (mul ref_clk_freq_khz (number (frac_rem regs))) (frac_den regs) in
      let temp = u64_of (div (number ((scaled + 2 ^ 64 - rest) % 2 ^ 64)) ref_clk_freq_khz) in
      (temp + 2 ^ 64 - multiplier regs * 2 ^ 16) % 2 ^ 64

module _ {W D : Type 0} (f : Double W) (bus : Cx0Bus D) (port : ℕ) where
  open bus use {bus_read, bus_write, bus_rmw}

  -- The clock of the registers that were read last.
  pub calculate_pll_clock : C10Phy D → W × C10Phy D
  unfolding pll_clock_of
  calculate_pll_clock s = (pll_clock_of f s.pll_state_orig, s)

  pub calculate_feedback_dividers : W → C10Phy D → ℕ × C10Phy D
  unfolding feedback_quotient with_quotient
  calculate_feedback_dividers pll_freq s =
      let quotient = feedback_quotient f s.pll_state_orig pll_freq in
      (0, record s { pll_state_mod = with_quotient quotient s.pll_state_mod })

  -- The loop of `read_registers` from `i` with `left` rounds to go.
  pub read_each : ℕ → ℕ → C10Phy D → C10Phy D
  read_each zero i s = s
  read_each (suc left) i s =
      let (value, d) = bus_read port lane0 (vdr_pll i) s.device in
      read_each left (i + 1) (record {
        pll_state_orig = λ j. if j == i then value else s.pll_state_orig j;
        pll_state_mod = λ j. if j == i then value else s.pll_state_mod j;
        device = d;
      })

  -- `C10_PLL_REG_COUNT` is 20.
  pub read_registers : C10Phy D → C10Phy D
  unfolding read_each
  read_registers s = read_each 20 0 s

  -- The registers of the messages before the dividers, the two bytes, and the update.
  pub write_quotient : (ℕ → ℕ) → D → D
  unfolding bit genmask reg_field_prep
  write_quotient regs d =
      let d₁ = bus_rmw port both_lanes (vdr_control 1) 0 (bit 2) true d in
      let d₂ =
        bus_rmw port both_lanes vdr_custom_width (genmask 1 0) (reg_field_prep (genmask 1 0) 0) true
          d₁ in
      let d₃ = bus_rmw port both_lanes (vdr_control 1) 0 (bit 0) true d₂ in
      let d₄ = bus_write port lane0 (vdr_pll 11) (u8 (regs 11)) true d₃ in
      let d₅ = bus_write port lane0 (vdr_pll 12) (u8 (regs 12)) true d₄ in
      bus_rmw port lane0 (vdr_control 1) 0 (bit_or (bit 1) (bit 0)) true d₅

  pub program_mmio : Bool → C10Phy D → ℕ × C10Phy D
  unfolding write_quotient
  program_mmio modified s = (
    0,
    record s {
      device = write_quotient (if modified then s.pll_state_mod else s.pll_state_orig) s.device;
    },
  )

  -- The virtual functions of the class.
  unfoldable pub c10 : PhyOps W (C10Phy D)
  c10 = record {
    calculate_pll_clock = calculate_pll_clock;
    calculate_feedback_dividers = calculate_feedback_dividers;
    program_mmio = program_mmio;
    read_registers = read_registers;
  }
