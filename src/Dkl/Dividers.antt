-- ===== src/Dkl/Dividers.antt =====
-- lib/dkl.cpp: the dividers of the Dekel PHY stay in their fields.
use software_vsync_modulatio.Prelude.{
  ℕ, ◌+◌, ◌-◌, ◌*◌, ◌/◌, ◌%◌, ◌^◌, ◌<◌, ◌≡◌, refl, ap, ◌∙◌, arith, bit_and, bit_or,
}
use software_vsync_modulatio.Prelude.Bitwise.{
  bit_and_field, bit_and_split, bit_and_mask, bit_or_fields, bit_or_split, bit_or-zero,
}
use software_vsync_modulatio.Bits.{u32, getbits_val, genmask, complement, replace_bits}
use software_vsync_modulatio.Bits.Fields.{getbits_val-eq}
use software_vsync_modulatio.Double.{Double}
use software_vsync_modulatio.Mmio.{Mmio}
use package.software_vsync_modulatio.Dkl.{
  DklPhy, dividers_of, with_dividers, calculate_feedback_dividers, read_div0,
}

low_mask : complement (genmask 7 0) ≡ (2 ^ 56 - 1) * 2 ^ 8
unfolding genmask
low_mask = refl

middle_mask : complement (genmask 29 8) ≡ (2 ^ 34 - 1) * 2 ^ 30 + (2 ^ 8 - 1)
unfolding genmask
middle_mask = refl

replace_low :
    (x v : ℕ) → x < 2 ^ 32 → v < 2 ^ 8 → replace_bits x (genmask 7 0) v ≡ x / 2 ^ 8 * 2 ^ 8 + v
unfolding replace_bits
replace_low x v hx hv =
    rw (low_mask, bit_and_field 8 56 x)
      (ap (λ (t : ℕ). u32 (bit_or t v)) {x = u32 (x / 2 ^ 8 % 2 ^ 56 * 2 ^ 8)}
          {y = x / 2 ^ 8 * 2 ^ 8} (omega arith)
        ∙ ap u32 (bit_or_fields 8 (x / 2 ^ 8) v hv)
        ∙ omega arith)

kept_middle :
    (x : ℕ)
    → x < 2 ^ 32
    → u32 (bit_and x (complement (genmask 29 8))) ≡ x / 2 ^ 30 * 2 ^ 22 * 2 ^ 8 + x % 2 ^ 8
kept_middle x hx = rw middle_mask (
    omega (
      arith,
      ap (λ (t : ℕ). bit_and t ((2 ^ 34 - 1) * 2 ^ 30 + (2 ^ 8 - 1))) {x = x}
          {y = x / 2 ^ 30 * 2 ^ 30 + x % 2 ^ 30} (omega arith),
      bit_and_split 30 (x / 2 ^ 30) (x % 2 ^ 30) (2 ^ 34 - 1) (2 ^ 8 - 1) (omega arith)
          (omega arith),
      bit_and_mask 34 (x / 2 ^ 30),
      bit_and_mask 8 (x % 2 ^ 30),
    ))

replace_middle :
    (x v : ℕ)
    → x < 2 ^ 32
    → v < 2 ^ 22
    → replace_bits x (genmask 29 8) (v * 2 ^ 8) ≡ x / 2 ^ 30 * 2 ^ 30 + v * 2 ^ 8 + x % 2 ^ 8
unfolding replace_bits
replace_middle x v hx hv = rw (kept_middle x hx) (
    omega (
      arith,
      ap (λ (t : ℕ). bit_or (x / 2 ^ 30 * 2 ^ 22 * 2 ^ 8 + x % 2 ^ 8) t) {x = v * 2 ^ 8}
          {y = v * 2 ^ 8 + 0} (omega arith),
      bit_or_split 8 (x / 2 ^ 30 * 2 ^ 22) (x % 2 ^ 8) v 0 (omega arith) (omega arith),
      bit_or_fields 22 (x / 2 ^ 30) v hv,
      bit_or-zero (x % 2 ^ 8),
    ))

replaced_fields :
    (x y v q : ℕ)
    → x < 2 ^ 32
    → y < 2 ^ 32
    → v < 2 ^ 8
    → q < 2 ^ 22
    → (getbits_val (replace_bits x (genmask 7 0) v) 7 0 ≡ v)
      × (getbits_val (replace_bits y (genmask 29 8) (q * 2 ^ 8)) 29 8 ≡ q)
      × (replace_bits x (genmask 7 0) v / 2 ^ 8 ≡ x / 2 ^ 8)
      × (replace_bits y (genmask 29 8) (q * 2 ^ 8) / 2 ^ 30 ≡ y / 2 ^ 30)
      × (replace_bits y (genmask 29 8) (q * 2 ^ 8) % 2 ^ 8 ≡ y % 2 ^ 8)
replaced_fields x y v q hx hy hv hq = (
  rw (replace_low x v hx hv) (getbits_val-eq _ 0 7 (omega arith) ∙ omega arith),
  rw (replace_middle y q hy hq) (getbits_val-eq _ 8 21 (omega arith) ∙ omega arith),
  rw (replace_low x v hx hv) (omega arith),
  rw (replace_middle y q hy hq) (omega arith),
  rw (replace_middle y q hy hq) (omega arith),
)

module _ {W D : Type 0} (f : Double W) (mmio : Mmio D) (phy_num : ℕ) where
  dividers_of_bounds :
      (clock : W) (div0 : ℕ)
      → ((dividers_of f clock div0).0 < 2 ^ 8) × ((dividers_of f clock div0).1 < 2 ^ 22)
  unfolding dividers_of
  dividers_of_bounds clock div0 = (omega arith, ground arith)

  -- For every clock and 32-bit register values, the new Dekel registers hold the integer part and
  -- the fraction in the fields that are read back, and their other bits are unchanged.
  pub calculate_feedback_dividers-fields :
      (clock : W) (s : DklPhy D)
      → s.dkl_pll_div0.mod_val < 2 ^ 32
      → s.dkl_bias.mod_val < 2 ^ 32
      → let s' = (calculate_feedback_dividers f mmio phy_num clock s).1 in
        let new = dividers_of f clock (read_div0 f mmio phy_num s.device).0 in
        (getbits_val s'.dkl_pll_div0.mod_val 7 0 ≡ new.0)
        × (getbits_val s'.dkl_bias.mod_val 29 8 ≡ new.1)
        × (s'.dkl_pll_div0.mod_val / 2 ^ 8 ≡ s.dkl_pll_div0.mod_val / 2 ^ 8)
        × (s'.dkl_bias.mod_val / 2 ^ 30 ≡ s.dkl_bias.mod_val / 2 ^ 30)
        × (s'.dkl_bias.mod_val % 2 ^ 8 ≡ s.dkl_bias.mod_val % 2 ^ 8)
  unfolding calculate_feedback_dividers with_dividers
  calculate_feedback_dividers-fields clock s h0 hb =
      let b = dividers_of_bounds clock (read_div0 f mmio phy_num s.device).0 in
      replaced_fields s.dkl_pll_div0.mod_val s.dkl_bias.mod_val _ _ h0 hb b.0 b.1
