-- ===== src/Dkl.antt =====
-- lib/dkl.cpp and dkl.h: the Dekel PHY of number `phy_num`, reached through a window of 4 KB that
-- an index register moves.
pub mod Dividers
pub mod Registers
pub mod Restore
pub mod Window
use software_vsync_modulatio.Prelude.{ℕ, ◌+◌, ◌*◌, ◌%◌, ◌^◌, ◌/◌, Bool, ◌==◌, ltb, if◌then◌else◌}
use software_vsync_modulatio.Prelude.Int.{ℤ, pos, pos_part}
use software_vsync_modulatio.Bits.{u8, u32, getbits_val, genmask, bit, replace_bits}
use software_vsync_modulatio.Double.{Double}
use software_vsync_modulatio.Mmio.{Mmio, Reg}
use software_vsync_modulatio.Phy.{PhyOps}

abbrev pub phy_num_base : ℕ → ℕ
phy_num_base phy_num = 0x168000 + phy_num * 0x1000

abbrev pub dkl_pll_div0_addr : ℕ → ℕ
dkl_pll_div0_addr phy_num = phy_num_base phy_num + 0x200

abbrev pub dkl_ssc_addr : ℕ → ℕ
dkl_ssc_addr phy_num = phy_num_base phy_num + 0x210

abbrev pub dkl_bias_addr : ℕ → ℕ
dkl_bias_addr phy_num = phy_num_base phy_num + 0x214

abbrev pub dkl_visa_serializer_addr : ℕ → ℕ
dkl_visa_serializer_addr phy_num = phy_num_base phy_num + 0x220

abbrev pub dkl_dco_addr : ℕ → ℕ
dkl_dco_addr phy_num = phy_num_base phy_num + 0x224

-- `HIP_INDEX_REG`
abbrev pub hip_index_reg : ℕ → ℕ
hip_index_reg tc_port = if ltb tc_port 4 then 0x1010A0 else 0x1010A4

-- `HIP_INDEX_VAL(tc_port, 2)`
abbrev pub hip_index_val : ℕ → ℕ
hip_index_val tc_port = 2 * 2 ^ (8 * (tc_port % 4))

-- `dkl_phy_reg`, with the device.
pub record DklPhy (D : Type 0) : Type 0 where
  pub dkl_pll_div0 : Reg
  pub dkl_visa_serializer : Reg
  pub dkl_bias : Reg
  pub dkl_ssc : Reg
  pub dkl_dco : Reg
  pub device : D

module _ {W : Type 0} (f : Double W) where
  -- `REF_CLK_FREQ * i_fbprediv_3_0`
  pub reference : ℕ → W
  reference prediv = f.mul (f.literal 384 1) (f.of_int (pos prediv))

  pub pll_clock_of : ℕ → ℕ → W
  unfolding reference getbits_val
  pll_clock_of div0 bias = f.mul (reference (getbits_val div0 11 8)) (
      f.add (f.of_int (pos (getbits_val div0 7 0)))
        (f.div (f.of_int (pos (getbits_val bias 29 8))) (f.of_int (pos (2 ^ 22)))))

  -- The integer part and the fraction for a clock, both cut to their fields.
  pub dividers_of : W → ℕ → ℕ × ℕ
  unfolding reference getbits_val
  dividers_of pll_freq div0 =
      let ratio = f.div pll_freq (reference (u8 (getbits_val div0 11 8))) in
      let most = f.of_int (pos 0xFF) in
      let least = if f.lt (f.floor ratio) most then f.floor ratio else most in
      let integer = u8 (pos_part (f.to_int least)) in
      let part = f.sub ratio (f.of_int (pos integer)) in
      let fraction = u32 (pos_part (f.to_int (f.round (f.mul part (f.of_int (pos (2 ^ 22))))))) in
      (integer, if ltb 0x3FFFFF fraction then 0x3FFFFF else fraction)

module _ {W D : Type 0} (f : Double W) (mmio : Mmio D) (phy_num : ℕ) where
  open mmio use {read_offset_dword, write_offset_dword}

  -- Reading `dkl_pll_div0`: a zero means that the window may have to be moved first.
  pub read_div0 : D → ℕ × D
  read_div0 d =
      let (div0, d') = read_offset_dword (dkl_pll_div0_addr phy_num) d in
      if div0 == 0
      then read_offset_dword (dkl_pll_div0_addr phy_num)
          (write_offset_dword (hip_index_reg phy_num) (hip_index_val phy_num) d')
      else (div0, d')

  pub read_registers : DklPhy D → DklPhy D
  unfolding read_div0
  read_registers s =
      let (div0, d0) = read_div0 s.device in
      let (visa, d1) = read_offset_dword (dkl_visa_serializer_addr phy_num) d0 in
      let (bias, d2) = read_offset_dword (dkl_bias_addr phy_num) d1 in
      let (ssc, d3) = read_offset_dword (dkl_ssc_addr phy_num) d2 in
      let (dco, d4) = read_offset_dword (dkl_dco_addr phy_num) d3 in
      record {
        dkl_pll_div0 = record { orig_val = div0; mod_val = div0 };
        dkl_visa_serializer = record { orig_val = visa; mod_val = visa };
        dkl_bias = record { orig_val = bias; mod_val = bias };
        dkl_ssc = record { orig_val = ssc; mod_val = ssc };
        dkl_dco = record { orig_val = dco; mod_val = dco };
        device = d4;
      }

  pub calculate_pll_clock : DklPhy D → W × DklPhy D
  unfolding read_div0 pll_clock_of
  calculate_pll_clock s =
      let (div0, d) = read_div0 s.device in
      let (bias, d') = read_offset_dword (dkl_bias_addr phy_num) d in
      (pll_clock_of f div0 bias, record s { device = d' })

  -- The new values of the five registers.
  pub with_dividers : ℕ → ℕ → DklPhy D → DklPhy D
  unfolding replace_bits genmask bit
  with_dividers integer fraction s = record s {
    dkl_pll_div0 = record s.dkl_pll_div0 {
      mod_val = replace_bits s.dkl_pll_div0.mod_val (genmask 7 0) integer;
    };
    dkl_bias = record s.dkl_bias {
      mod_val = replace_bits s.dkl_bias.mod_val (genmask 29 8) (fraction * 2 ^ 8);
    };
    dkl_visa_serializer = record s.dkl_visa_serializer {
      mod_val = replace_bits s.dkl_visa_serializer.mod_val (genmask 2 0) 0x200;
    };
    dkl_ssc = record s.dkl_ssc {
      mod_val =
          replace_bits (replace_bits s.dkl_ssc.mod_val (genmask 31 29) (0x2 * 2 ^ 29)) (bit 13)
            (0x2 * 2 ^ 12);
    };
    dkl_dco = record s.dkl_dco { mod_val = replace_bits s.dkl_dco.mod_val (bit 2) (0x2 * 2 ^ 1) };
  }

  pub calculate_feedback_dividers : W → DklPhy D → ℕ × DklPhy D
  unfolding read_div0 dividers_of with_dividers
  calculate_feedback_dividers pll_freq s =
      let (div0, d) = read_div0 s.device in
      let (bias, d') = read_offset_dword (dkl_bias_addr phy_num) d in
      let (integer, fraction) = dividers_of f pll_freq div0 in
      (0, with_dividers integer fraction (record s { device = d' }))

  pub chosen : Bool → Reg → ℕ
  chosen modified r = if modified then r.mod_val else r.orig_val

  -- Moving the window if `dkl_pll_div0` reads as zero.
  pub open_window : D → D
  open_window d =
      let (div0, d') = read_offset_dword (dkl_pll_div0_addr phy_num) d in
      if div0 == 0
      then write_offset_dword (hip_index_reg phy_num) (hip_index_val phy_num) d'
      else d'

  pub program_mmio : Bool → DklPhy D → ℕ × DklPhy D
  unfolding chosen open_window
  program_mmio modified s =
      let d0 = open_window s.device in
      let d1 = write_offset_dword (dkl_pll_div0_addr phy_num) (chosen modified s.dkl_pll_div0) d0 in
      let d2 =
        write_offset_dword (dkl_visa_serializer_addr phy_num)
          (chosen modified s.dkl_visa_serializer) d1 in
      let d3 = write_offset_dword (dkl_bias_addr phy_num) (chosen modified s.dkl_bias) d2 in
      let d4 = write_offset_dword (dkl_ssc_addr phy_num) (chosen modified s.dkl_ssc) d3 in
      let d5 = write_offset_dword (dkl_dco_addr phy_num) (chosen modified s.dkl_dco) d4 in
      (0, record s { device = d5 })

  -- The virtual functions of the class.
  unfoldable pub dkl : PhyOps W (DklPhy D)
  dkl = record {
    calculate_pll_clock = calculate_pll_clock;
    calculate_feedback_dividers = calculate_feedback_dividers;
    program_mmio = program_mmio;
    read_registers = read_registers;
  }
