-- ===== src/DpMn.antt =====
-- lib/dp_m_n.cpp: a DP link whose M and N registers are programmed. Its "clock" is the M value.
-- The registers of the pipe are looked up once, by the constructor: `m_addr` and `n_addr`.
use software_vsync_modulatio.Prelude.{ℕ, ◌≡◌, refl, ap₂, ◌∙◌, Bool, false, ◌==◌, if◌then◌else◌}
use software_vsync_modulatio.Prelude.Int.{pos, pos_part}
use software_vsync_modulatio.Bits.{u32}
use software_vsync_modulatio.Double.{Double}
use software_vsync_modulatio.Mmio.{Mmio, IsPlain, Reg}
use software_vsync_modulatio.Phy.{PhyOps}
use software_vsync_modulatio.Phy.Restore.{IsRestorable}

-- `dp_m_n_phy_reg`, with the device.
pub record DpMnPhy (D : Type 0) : Type 0 where
  pub mreg : Reg
  pub nreg : Reg
  pub device : D

module _ {W D : Type 0} (f : Double W) (mmio : Mmio D) (m_addr n_addr : ℕ) where
  open mmio use {read_offset_dword, write_offset_dword}

  unfoldable pub calculate_pll_clock : DpMnPhy D → W × DpMnPhy D
  calculate_pll_clock s = (f.of_int (pos s.mreg.orig_val), s)

  unfoldable pub calculate_feedback_dividers : W → DpMnPhy D → ℕ × DpMnPhy D
  calculate_feedback_dividers pll_clock s =
      (0, record s { mreg = record s.mreg { mod_val = u32 (pos_part (f.to_int pll_clock)) } })

  unfoldable pub read_registers : DpMnPhy D → DpMnPhy D
  read_registers s =
      let (m, d) = read_offset_dword m_addr s.device in
      let (n, d') = read_offset_dword n_addr d in
      record {
        mreg = record { orig_val = m; mod_val = m };
        nreg = record { orig_val = n; mod_val = n };
        device = d';
      }

  unfoldable pub program_mmio : Bool → DpMnPhy D → ℕ × DpMnPhy D
  program_mmio modified s =
      let d =
        write_offset_dword m_addr (if modified then s.mreg.mod_val else s.mreg.orig_val) s.device in
      let d' = write_offset_dword n_addr (if modified then s.nreg.mod_val else s.nreg.orig_val) d in
      (0, record s { device = d' })

  -- The virtual functions of the class.
  unfoldable pub dp_m_n : PhyOps W (DpMnPhy D)
  dp_m_n = record {
    calculate_pll_clock = calculate_pll_clock;
    calculate_feedback_dividers = calculate_feedback_dividers;
    program_mmio = program_mmio;
    read_registers = read_registers;
  }

  -- What the M and N registers hold, and what is saved of them.
  abbrev pub live : (ℕ → D → ℕ) → DpMnPhy D → ℕ × ℕ
  live peek s = (peek m_addr s.device, peek n_addr s.device)

  abbrev pub saved : DpMnPhy D → ℕ × ℕ
  saved s = (s.mreg.orig_val, s.nreg.orig_val)

  -- On plain registers at two different addresses, the DP M and N class keeps the laws
  -- IsRestorable for both its registers.
  pub dp_m_n-IsRestorable :
      (peek : ℕ → D → ℕ)
      → IsPlain mmio peek
      → (m_addr == n_addr) ≡ false
      → IsRestorable dp_m_n (live peek) saved
  unfolding dp_m_n calculate_pll_clock calculate_feedback_dividers read_registers program_mmio
  dp_m_n-IsRestorable peek plain ne = record {
    read_saves = λ s.
        ap₂ (λ (a b : ℕ). (a, b)) (plain.read_value m_addr s.device)
          (plain.read_value n_addr (read_offset_dword m_addr s.device).1
            ∙ plain.read_keeps m_addr n_addr s.device);
    read_keeps = λ s.
        ap₂ (λ (a b : ℕ). (a, b))
          (plain.read_keeps n_addr m_addr (read_offset_dword m_addr s.device).1
            ∙ plain.read_keeps m_addr m_addr s.device)
          (plain.read_keeps n_addr n_addr (read_offset_dword m_addr s.device).1
            ∙ plain.read_keeps m_addr n_addr s.device);
    clock_keeps = λ s. refl;
    clock_keeps_saved = λ s. refl;
    dividers_keep = λ c s. refl;
    dividers_keep_saved = λ c s. refl;
    program_keeps_saved = λ m s. refl;
    program_restores = λ s.
        ap₂ (λ (a b : ℕ). (a, b))
          (plain.write_other n_addr m_addr s.nreg.orig_val
              (write_offset_dword m_addr s.mreg.orig_val s.device) ne
            ∙ plain.write_same m_addr s.mreg.orig_val s.device)
          (plain.write_same n_addr s.nreg.orig_val
            (write_offset_dword m_addr s.mreg.orig_val s.device));
  }
