-- ===== src/Combo/Dividers.antt =====
-- The new value of the Combo PHY's `cfgcr0`.
use software_vsync_modulatio.Prelude.{
  ℕ, ◌+◌, ◌-◌, ◌*◌, ◌/◌, ◌^◌, ◌<◌, ◌≡◌, refl, ap, ◌∙◌, arith, bit_and, bit_or,
}
use software_vsync_modulatio.Prelude.Bitwise.{
  bit_and_field, bit_or_fields, bit_or_split, bit_or-zero,
}
use software_vsync_modulatio.Bits.{u32, getbits_val, genmask, complement}
use software_vsync_modulatio.Bits.Fields.{getbits_val-eq}
use package.software_vsync_modulatio.Combo.{with_dividers}

keep_mask : complement (genmask 24 0) ≡ (2 ^ 39 - 1) * 2 ^ 25
unfolding genmask
keep_mask = refl

kept_bits : (c : ℕ) → c < 2 ^ 32 → u32 (bit_and c (complement (genmask 24 0))) ≡ c / 2 ^ 25 * 2 ^ 25
kept_bits c h = rw (keep_mask, bit_and_field 25 39 c) (omega arith)

with_integer :
    (c i : ℕ)
    → c < 2 ^ 32
    → i < 2 ^ 10
    → u32 (bit_or (u32 (bit_and c (complement (genmask 24 0)))) i) ≡ c / 2 ^ 25 * 2 ^ 25 + i
with_integer c i h hi =
    rw (kept_bits c h, bit_or_fields 25 (c / 2 ^ 25) i (omega arith)) (omega arith)

pub with_dividers-eq :
    (c i q : ℕ)
    → c < 2 ^ 32
    → i < 2 ^ 10
    → q < 2 ^ 15
    → with_dividers c i q ≡ c / 2 ^ 25 * 2 ^ 25 + q * 2 ^ 10 + i
unfolding with_dividers
with_dividers-eq c i q h hi hq = rw (with_integer c i h hi) (
    omega (
      arith,
      ap (λ (x : ℕ). bit_or x (q * 2 ^ 10)) {x = c / 2 ^ 25 * 2 ^ 25 + i}
          {y = c / 2 ^ 25 * 2 ^ 15 * 2 ^ 10 + i} (omega arith),
      ap (λ (x : ℕ). bit_or (c / 2 ^ 25 * 2 ^ 15 * 2 ^ 10 + i) x) {x = q * 2 ^ 10}
          {y = q * 2 ^ 10 + 0} (omega arith),
      bit_or_split 10 (c / 2 ^ 25 * 2 ^ 15) i q 0 hi (omega arith),
      bit_or_fields 15 (c / 2 ^ 25) q hq,
      bit_or-zero i,
    ))

-- For dividers within their fields and a 32-bit register, the new cfgcr0 reads back as these
-- dividers and keeps its upper bits.
pub with_dividers-fields :
    (c i q : ℕ)
    → c < 2 ^ 32
    → i < 2 ^ 10
    → q < 2 ^ 15
    → (getbits_val (with_dividers c i q) 9 0 ≡ i)
      × (getbits_val (with_dividers c i q) 24 10 ≡ q)
      × (with_dividers c i q / 2 ^ 25 ≡ c / 2 ^ 25)
with_dividers-fields c i q h hi hq = (
  getbits_val-eq _ 0 9 (omega arith) ∙ omega (arith, with_dividers-eq c i q h hi hq),
  getbits_val-eq _ 10 14 (omega arith) ∙ omega (arith, with_dividers-eq c i q h hi hq),
  omega (arith, with_dividers-eq c i q h hi hq),
)
