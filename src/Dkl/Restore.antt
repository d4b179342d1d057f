-- ===== src/Dkl/Restore.antt =====
-- lib/dkl.cpp: the Dekel PHY restores its five registers.
use software_vsync_modulatio.Prelude.{
  ℕ, ◌≡◌, ◌≢◌, refl, ap, ◌∙◌, false, ◌==◌, arith, Bool-cases, inl, inr,
}
use software_vsync_modulatio.Double.{Double}
use software_vsync_modulatio.Mmio.{Mmio}
use software_vsync_modulatio.Phy.Restore.{IsRestorable}
use package.software_vsync_modulatio.Dkl.{
  DklPhy, read_div0, read_registers, calculate_pll_clock, calculate_feedback_dividers,
  with_dividers, open_window, program_mmio, chosen, dkl, dkl_pll_div0_addr, dkl_ssc_addr,
  dkl_bias_addr, dkl_visa_serializer_addr, dkl_dco_addr, hip_index_reg, hip_index_val,
}
use software_vsync_modulatio.Dkl.Registers.{
  Five, five, Holds, read-five, read-Holds, index-Holds, write_div0-Holds, write_visa-Holds,
  write_bias-Holds, write_ssc-Holds, write_dco-Holds,
}
use software_vsync_modulatio.Dkl.Window.{IsWindowed, window}

five_eq :
    (a b : Five)
    → a.div0 ≡ b.div0
    → a.visa ≡ b.visa
    → a.bias ≡ b.bias
    → a.ssc ≡ b.ssc
    → a.dco ≡ b.dco
    → a ≡ b
five_eq a b h0 h1 h2 h3 h4 = ground arith

-- The registers that the window shows, and the values that the object has saved.
abbrev pub live : {D : Type 0} → (ℕ → D → ℕ) → DklPhy D → Five
live peek s = five peek s.device

abbrev pub saved : {D : Type 0} → DklPhy D → Five
saved s = record {
  div0 = s.dkl_pll_div0.orig_val;
  visa = s.dkl_visa_serializer.orig_val;
  bias = s.dkl_bias.orig_val;
  ssc = s.dkl_ssc.orig_val;
  dco = s.dkl_dco.orig_val;
}

module _ {W D : Type 0} (f : Double W) (mmio : Mmio D) (phy_num : ℕ) (index : D → ℕ)
    (peek : ℕ → D → ℕ) (law : IsWindowed mmio phy_num index peek) where
  open mmio use {read_offset_dword, write_offset_dword}

  -- A register of the PLL that does not read as 0 is read through the open window.
  open_of_read :
      (d : D)
      → ((read_offset_dword (dkl_pll_div0_addr phy_num) d).0 == 0) ≡ false
      → window phy_num (index d) ≡ 2
  open_of_read d e = elim (Bool-cases (window phy_num (index d) == 2)) [
    | inl o ↦ ground arith
    | inr o ↦
        let closed : window phy_num (index d) ≢ 2 = ground arith in
        absurd (ground (arith, law.read_closed d closed))
  ]

  -- After `dkl_pll_div0` is read, by whichever way, the window is open, and the value is its own.
  read_div0-Holds :
      (d : D)
      → Holds mmio phy_num index peek law (read_div0 f mmio phy_num d).1 (five peek d)
        × ((read_div0 f mmio phy_num d).0 ≡ (five peek d).div0)
  unfolding read_div0
  read_div0-Holds d = elim (Bool-cases (first.0 == 0)) [
    | inl e ↦
        let held : Holds mmio phy_num index peek law moved (five peek d) = (
          (index-Holds mmio phy_num index peek law first.1).0,
          (index-Holds mmio phy_num index peek law first.1).1
              ∙ read-five mmio phy_num index peek law (dkl_pll_div0_addr phy_num) d,
        ) in
        rw e (
          read-Holds mmio phy_num index peek law (dkl_pll_div0_addr phy_num) moved (five peek d)
              held,
          law.read_open 0x200 moved (omega arith) held.0 ∙ ap (λ (t : Five). t.div0) held.1,
        )
    | inr e ↦
        let w = open_of_read d e in
        rw e (
          read-Holds mmio phy_num index peek law (dkl_pll_div0_addr phy_num) d (five peek d)
              (w, refl),
          law.read_open 0x200 d (omega arith) w,
        )
  ]
    where
      first : ℕ × D
      first = read_offset_dword (dkl_pll_div0_addr phy_num) d

      moved : D
      moved = write_offset_dword (hip_index_reg phy_num) (hip_index_val phy_num) first.1

  open_window-Holds :
      (d : D) → Holds mmio phy_num index peek law (open_window f mmio phy_num d) (five peek d)
  unfolding open_window
  open_window-Holds d = elim (Bool-cases (first.0 == 0)) [
    | inl e ↦ rw e (
      (index-Holds mmio phy_num index peek law first.1).0,
      (index-Holds mmio phy_num index peek law first.1).1
          ∙ read-five mmio phy_num index peek law (dkl_pll_div0_addr phy_num) d,
    )
    | inr e ↦ rw e (
        read-Holds mmio phy_num index peek law (dkl_pll_div0_addr phy_num) d (five peek d)
          (open_of_read d e, refl))
  ]
    where
      first : ℕ × D
      first = read_offset_dword (dkl_pll_div0_addr phy_num) d

  -- The five registers after the five writes.
  program_mmio-live : (s : DklPhy D) → live peek (program_mmio f mmio phy_num false s).1 ≡ saved s
  unfolding program_mmio chosen
  program_mmio-live s =
      let h0 =
        write_div0-Holds mmio phy_num index peek law s.dkl_pll_div0.orig_val _ _
          (open_window-Holds s.device) in
      let h1 = write_visa-Holds mmio phy_num index peek law s.dkl_visa_serializer.orig_val _ _ h0 in
      let h2 = write_bias-Holds mmio phy_num index peek law s.dkl_bias.orig_val _ _ h1 in
      let h3 = write_ssc-Holds mmio phy_num index peek law s.dkl_ssc.orig_val _ _ h2 in
      (write_dco-Holds mmio phy_num index peek law s.dkl_dco.orig_val _ _ h3).1

  read_registers-live : (s : DklPhy D) → live peek (read_registers f mmio phy_num s) ≡ live peek s
  unfolding read_registers
  read_registers-live s =
      read-five mmio phy_num index peek law (dkl_dco_addr phy_num) _
      ∙ read-five mmio phy_num index peek law (dkl_ssc_addr phy_num) _
      ∙ read-five mmio phy_num index peek law (dkl_bias_addr phy_num) _
      ∙ read-five mmio phy_num index peek law (dkl_visa_serializer_addr phy_num) _
      ∙ (read_div0-Holds s.device).0.1

  read_registers-saved : (s : DklPhy D) → saved (read_registers f mmio phy_num s) ≡ live peek s
  unfolding read_registers
  read_registers-saved s =
      let (h0, value) = read_div0-Holds s.device in
      let h1 = read-Holds mmio phy_num index peek law (dkl_visa_serializer_addr phy_num) _ _ h0 in
      let h2 = read-Holds mmio phy_num index peek law (dkl_bias_addr phy_num) _ _ h1 in
      let h3 = read-Holds mmio phy_num index peek law (dkl_ssc_addr phy_num) _ _ h2 in
      five_eq _ _ value (law.read_open 0x220 _ (omega arith) h0.0 ∙ ap (λ (t : Five). t.visa) h0.1)
        (law.read_open 0x214 _ (omega arith) h1.0 ∙ ap (λ (t : Five). t.bias) h1.1)
        (law.read_open 0x210 _ (omega arith) h2.0 ∙ ap (λ (t : Five). t.ssc) h2.1)
        (law.read_open 0x224 _ (omega arith) h3.0 ∙ ap (λ (t : Five). t.dco) h3.1)

  clock_keeps-live :
      (s : DklPhy D)
      → five peek
          (read_offset_dword (dkl_bias_addr phy_num) (read_div0 f mmio phy_num s.device).1).1
        ≡ live peek s
  clock_keeps-live s =
      read-five mmio phy_num index peek law (dkl_bias_addr phy_num) _
      ∙ (read_div0-Holds s.device).0.1

  -- On a device that keeps the laws IsWindowed, wherever its window points at first, the Dekel class
  -- keeps the laws IsRestorable for the five registers that it programs behind the window.
  pub dkl-IsRestorable : IsRestorable (dkl f mmio phy_num) (live peek) saved
  unfolding dkl calculate_pll_clock calculate_feedback_dividers with_dividers program_mmio
  dkl-IsRestorable = record {
    read_saves = read_registers-saved;
    read_keeps = read_registers-live;
    clock_keeps = clock_keeps-live;
    clock_keeps_saved = λ s. refl;
    dividers_keep = λ c s. clock_keeps-live s;
    dividers_keep_saved = λ c s. refl;
    program_keeps_saved = λ m s. refl;
    program_restores = program_mmio-live;
  }
