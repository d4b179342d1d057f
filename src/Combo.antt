-- ===== src/Combo.antt =====
-- lib/combo.cpp: the Combo PHY. The registers of the PLL are looked up once, by the constructor:
-- `cfgcr0_addr` and `cfgcr1_addr`.
pub mod Dividers
use software_vsync_modulatio.Prelude.{
  ℕ, ◌*◌, ◌%◌, ◌^◌, ◌≡◌, refl, sym, ap, ◌∙◌, Bool, bit_or, bit_and, if◌then◌else◌,
}
use software_vsync_modulatio.Prelude.Int.{ℤ, pos, pos_part}
use software_vsync_modulatio.Bits.{u32, getbits_val, genmask, complement}
use software_vsync_modulatio.Double.{Double}
use software_vsync_modulatio.Mmio.{Mmio, IsPlain, Reg}
use software_vsync_modulatio.Phy.{PhyOps}
use software_vsync_modulatio.Phy.Restore.{IsRestorable}

-- `combo_phy_reg`, with the device.
pub record ComboPhy (D : Type 0) : Type 0 where
  pub cfgcr0 : Reg
  pub cfgcr1 : Reg
  pub device : D

-- The new `cfgcr0`: bits 24:0 replaced by the integer part and the fraction. The value is an
-- `uint32_t`, the mask and the shifted fraction are 64 bits wide.
pub with_dividers : ℕ → ℕ → ℕ → ℕ
unfolding genmask
with_dividers cfgcr0 integer fraction = u32 (
    bit_or (u32 (bit_or (u32 (bit_and cfgcr0 (complement (genmask 24 0)))) integer))
      (fraction * 2 ^ 10))

module _ {W : Type 0} (f : Double W) where
  -- `REF_COMBO_FREQ * 1000`
  pub refclock : W
  refclock = f.mul (f.literal 192 1) (f.of_int (pos 1000))

  pub pll_clock_of : ℕ → W
  unfolding getbits_val refclock
  pll_clock_of cfgcr0 =
      let integer = getbits_val cfgcr0 9 0 in
      let fraction = getbits_val cfgcr0 24 10 in
      f.div
        (f.add (f.mul (f.of_int (pos integer)) refclock)
          (f.div (f.mul (f.of_int (pos (fraction * 2))) refclock) (f.of_int (pos (2 ^ 15)))))
        (f.of_int (pos 1000))

  -- The integer part and the fraction for a clock; a cast of a double is taken at its bit width.
  pub dividers_of : W → ℕ × ℕ
  unfolding refclock
  dividers_of pll_clock =
      let clock = f.mul pll_clock (f.of_int (pos 1000)) in
      let integer = u32 (pos_part (f.to_int (f.div clock refclock))) in
      let remainder =
        pos_part (f.to_int (f.sub clock (f.mul (f.of_int (pos integer)) refclock))) % 2 ^ 64 in
      let fraction = u32 (
        pos_part (
          f.to_int (
            f.div (f.of_int (pos (remainder * 2 ^ 15 % 2 ^ 64)))
              (f.mul (f.of_int (pos 2)) refclock)))) in
      (integer, fraction)

module _ {W D : Type 0} (f : Double W) (mmio : Mmio D) (cfgcr0_addr cfgcr1_addr : ℕ) where
  open mmio use {read_offset_dword, write_offset_dword}

  pub calculate_pll_clock : ComboPhy D → W × ComboPhy D
  unfolding pll_clock_of
  calculate_pll_clock s =
      let (cfgcr0, d) = read_offset_dword cfgcr0_addr s.device in
      let (cfgcr1, d') = read_offset_dword cfgcr1_addr d in
      (pll_clock_of f cfgcr0, record s { device = d' })

  pub calculate_feedback_dividers : W → ComboPhy D → ℕ × ComboPhy D
  unfolding dividers_of with_dividers
  calculate_feedback_dividers pll_clock s =
      let (cfgcr0, d) = read_offset_dword cfgcr0_addr s.device in
      let (cfgcr1, d') = read_offset_dword cfgcr1_addr d in
      let (integer, fraction) = dividers_of f pll_clock in
      (
        0,
        record {
          cfgcr0 = record s.cfgcr0 { mod_val = with_dividers cfgcr0 integer fraction };
          cfgcr1 = record s.cfgcr1 { mod_val = cfgcr1 };
          device = d';
        },
      )

  pub read_registers : ComboPhy D → ComboPhy D
  read_registers s =
      let (cfgcr0, d) = read_offset_dword cfgcr0_addr s.device in
      let (cfgcr1, d') = read_offset_dword cfgcr1_addr d in
      record {
        cfgcr0 = record s.cfgcr0 { orig_val = cfgcr0 };
        cfgcr1 = record s.cfgcr1 { orig_val = cfgcr1 };
        device = d';
      }

  -- Only `cfgcr0` is written.
  pub program_mmio : Bool → ComboPhy D → ℕ × ComboPhy D
  program_mmio modified s = (
    0,
    record s {
      device =
          write_offset_dword cfgcr0_addr (if modified then s.cfgcr0.mod_val else s.cfgcr0.orig_val)
            s.device;
    },
  )

  -- The virtual functions of the class.
  unfoldable pub combo : PhyOps W (ComboPhy D)
  combo = record {
    calculate_pll_clock = calculate_pll_clock;
    calculate_feedback_dividers = calculate_feedback_dividers;
    program_mmio = program_mmio;
    read_registers = read_registers;
  }

  abbrev pub live : (ℕ → D → ℕ) → ComboPhy D → ℕ
  live peek s = peek cfgcr0_addr s.device

  abbrev pub saved : ComboPhy D → ℕ
  saved s = s.cfgcr0.orig_val

  -- On plain registers, the Combo class keeps the laws IsRestorable for cfgcr0, the register that
  -- it programs.
  pub combo-IsRestorable :
      (peek : ℕ → D → ℕ) → IsPlain mmio peek → IsRestorable combo (live peek) saved
  unfolding combo calculate_pll_clock calculate_feedback_dividers read_registers program_mmio
  combo-IsRestorable peek plain = record {
    read_saves = λ s. plain.read_value cfgcr0_addr s.device;
    read_keeps = two_reads;
    clock_keeps = two_reads;
    clock_keeps_saved = λ s. refl;
    dividers_keep = λ c s. two_reads s;
    dividers_keep_saved = λ c s. refl;
    program_keeps_saved = λ m s. refl;
    program_restores = λ s. plain.write_same cfgcr0_addr s.cfgcr0.orig_val s.device;
  }
    where
      two_reads :
          (s : ComboPhy D)
          → peek cfgcr0_addr
              (read_offset_dword cfgcr1_addr (read_offset_dword cfgcr0_addr s.device).1).1
            ≡ peek cfgcr0_addr s.device
      two_reads s =
          plain.read_keeps cfgcr1_addr cfgcr0_addr (read_offset_dword cfgcr0_addr s.device).1
          ∙ plain.read_keeps cfgcr0_addr cfgcr0_addr s.device
