-- ===== src/Dkl/Registers.antt =====
-- The five registers of the Dekel PHY behind its window: what reads and writes do to them.
use software_vsync_modulatio.Prelude.{
  ℕ, zero, suc, ◌*◌, ◌/◌, ◌%◌, ◌^◌, ◌≡◌, ◌<◌, refl, ap, ◌∙◌, arith,
}
use software_vsync_modulatio.Mmio.{Mmio}
use package.software_vsync_modulatio.Dkl.{
  dkl_pll_div0_addr, dkl_ssc_addr, dkl_bias_addr, dkl_visa_serializer_addr, dkl_dco_addr,
  hip_index_reg, hip_index_val,
}
use software_vsync_modulatio.Dkl.Window.{IsWindowed, window}

-- The values of the five registers.
pub record Five : Type 0 where
  pub div0 : ℕ
  pub visa : ℕ
  pub bias : ℕ
  pub ssc : ℕ
  pub dco : ℕ

-- What the five registers of a device hold.
abbrev pub five : {D : Type 0} → (ℕ → D → ℕ) → D → Five
five peek d = record {
  div0 = peek 0x200 d;
  visa = peek 0x220 d;
  bias = peek 0x214 d;
  ssc = peek 0x210 d;
  dco = peek 0x224 d;
}

-- The index that the code writes points the aperture at 2.
pub window-hip_index_val : (phy_num : ℕ) → window phy_num (hip_index_val phy_num) ≡ 2
window-hip_index_val phy_num = byte_of (phy_num % 4) (omega arith)
  where
    byte_of : (k : ℕ) → k < 4 → 2 * 2 ^ (8 * k) / 2 ^ (8 * k) % 4 ≡ 2
    byte_of zero h = refl
    byte_of (suc zero) h = refl
    byte_of (suc (suc zero)) h = refl
    byte_of (suc (suc (suc zero))) h = refl
    byte_of (suc (suc (suc (suc k)))) h = absurd (omega arith)

module _ {D : Type 0} (mmio : Mmio D) (phy_num : ℕ) (index : D → ℕ) (peek : ℕ → D → ℕ)
    (law : IsWindowed mmio phy_num index peek) where
  open mmio use {read_offset_dword, write_offset_dword}

  -- The window is open and the five registers hold these values.
  abbrev pub Holds : D → Five → Type 0
  Holds d t = (window phy_num (index d) ≡ 2) × (five peek d ≡ t)

  pub read-five : (a : ℕ) (d : D) → five peek (read_offset_dword a d).1 ≡ five peek d
  read-five a d = ground (
    arith,
    law.read_keeps a 0x200 d,
    law.read_keeps a 0x220 d,
    law.read_keeps a 0x214 d,
    law.read_keeps a 0x210 d,
    law.read_keeps a 0x224 d,
  )

  pub read-Holds : (a : ℕ) (d : D) (t : Five) → Holds d t → Holds (read_offset_dword a d).1 t
  read-Holds a d t (w, e) = (ap (window phy_num) (law.read_keeps_index a d) ∙ w, read-five a d ∙ e)

  pub index-Holds :
      (d : D)
      → Holds (write_offset_dword (hip_index_reg phy_num) (hip_index_val phy_num) d) (five peek d)
  index-Holds d = (
    ap (window phy_num) (law.index_value (hip_index_val phy_num) d) ∙ window-hip_index_val phy_num,
    ground (
      arith,
      law.index_keeps (hip_index_val phy_num) 0x200 d (omega arith),
      law.index_keeps (hip_index_val phy_num) 0x220 d (omega arith),
      law.index_keeps (hip_index_val phy_num) 0x214 d (omega arith),
      law.index_keeps (hip_index_val phy_num) 0x210 d (omega arith),
      law.index_keeps (hip_index_val phy_num) 0x224 d (omega arith),
    ),
  )

  pub write_div0-Holds :
      (v : ℕ) (d : D) (t : Five)
      → Holds d t
      → Holds (write_offset_dword (dkl_pll_div0_addr phy_num) v d) (record t { div0 = v })
  write_div0-Holds v d t (w, e) = (
    ap (window phy_num) (law.write_keeps_index 0x200 v d (omega arith)) ∙ w,
    ground (
      arith,
      ap (λ (x : Five). x.div0) e,
      ap (λ (x : Five). x.visa) e,
      ap (λ (x : Five). x.bias) e,
      ap (λ (x : Five). x.ssc) e,
      ap (λ (x : Five). x.dco) e,
      law.write_same 0x200 v d (omega arith) w,
      law.write_other 0x200 0x220 v d (omega arith) w refl,
      law.write_other 0x200 0x214 v d (omega arith) w refl,
      law.write_other 0x200 0x210 v d (omega arith) w refl,
      law.write_other 0x200 0x224 v d (omega arith) w refl,
    ),
  )

  pub write_visa-Holds :
      (v : ℕ) (d : D) (t : Five)
      → Holds d t
      → Holds (write_offset_dword (dkl_visa_serializer_addr phy_num) v d) (record t { visa = v })
  write_visa-Holds v d t (w, e) = (
    ap (window phy_num) (law.write_keeps_index 0x220 v d (omega arith)) ∙ w,
    ground (
      arith,
      ap (λ (x : Five). x.div0) e,
      ap (λ (x : Five). x.visa) e,
      ap (λ (x : Five). x.bias) e,
      ap (λ (x : Five). x.ssc) e,
      ap (λ (x : Five). x.dco) e,
      law.write_same 0x220 v d (omega arith) w,
      law.write_other 0x220 0x200 v d (omega arith) w refl,
      law.write_other 0x220 0x214 v d (omega arith) w refl,
      law.write_other 0x220 0x210 v d (omega arith) w refl,
      law.write_other 0x220 0x224 v d (omega arith) w refl,
    ),
  )

  pub write_bias-Holds :
      (v : ℕ) (d : D) (t : Five)
      → Holds d t
      → Holds (write_offset_dword (dkl_bias_addr phy_num) v d) (record t { bias = v })
  write_bias-Holds v d t (w, e) = (
    ap (window phy_num) (law.write_keeps_index 0x214 v d (omega arith)) ∙ w,
    ground (
      arith,
      ap (λ (x : Five). x.div0) e,
      ap (λ (x : Five). x.visa) e,
      ap (λ (x : Five). x.bias) e,
      ap (λ (x : Five). x.ssc) e,
      ap (λ (x : Five). x.dco) e,
      law.write_same 0x214 v d (omega arith) w,
      law.write_other 0x214 0x200 v d (omega arith) w refl,
      law.write_other 0x214 0x220 v d (omega arith) w refl,
      law.write_other 0x214 0x210 v d (omega arith) w refl,
      law.write_other 0x214 0x224 v d (omega arith) w refl,
    ),
  )

  pub write_ssc-Holds :
      (v : ℕ) (d : D) (t : Five)
      → Holds d t
      → Holds (write_offset_dword (dkl_ssc_addr phy_num) v d) (record t { ssc = v })
  write_ssc-Holds v d t (w, e) = (
    ap (window phy_num) (law.write_keeps_index 0x210 v d (omega arith)) ∙ w,
    ground (
      arith,
      ap (λ (x : Five). x.div0) e,
      ap (λ (x : Five). x.visa) e,
      ap (λ (x : Five). x.bias) e,
      ap (λ (x : Five). x.ssc) e,
      ap (λ (x : Five). x.dco) e,
      law.write_same 0x210 v d (omega arith) w,
      law.write_other 0x210 0x200 v d (omega arith) w refl,
      law.write_other 0x210 0x220 v d (omega arith) w refl,
      law.write_other 0x210 0x214 v d (omega arith) w refl,
      law.write_other 0x210 0x224 v d (omega arith) w refl,
    ),
  )

  pub write_dco-Holds :
      (v : ℕ) (d : D) (t : Five)
      → Holds d t
      → Holds (write_offset_dword (dkl_dco_addr phy_num) v d) (record t { dco = v })
  write_dco-Holds v d t (w, e) = (
    ap (window phy_num) (law.write_keeps_index 0x224 v d (omega arith)) ∙ w,
    ground (
      arith,
      ap (λ (x : Five). x.div0) e,
      ap (λ (x : Five). x.visa) e,
      ap (λ (x : Five). x.bias) e,
      ap (λ (x : Five). x.ssc) e,
      ap (λ (x : Five). x.dco) e,
      law.write_same 0x224 v d (omega arith) w,
      law.write_other 0x224 0x200 v d (omega arith) w refl,
      law.write_other 0x224 0x220 v d (omega arith) w refl,
      law.write_other 0x224 0x214 v d (omega arith) w refl,
      law.write_other 0x224 0x210 v d (omega arith) w refl,
    ),
  )
