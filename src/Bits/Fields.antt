-- ===== src/Bits/Fields.antt =====
-- The bit macros as arithmetic: a field is a quotient and a remainder.
use native.Mathlib.Nat.{
  pow-suc, mul_assoc, add-mul, div-eq_of_lt, mod-eq_of_lt, mul-add-div_right,
  mul-add-mod_self_right, one-le-pow, pow-le-pow_right,
}
use software_vsync_modulatio.Prelude.{
  ℕ, zero, suc, ◌+◌, ◌-◌, ◌*◌, ◌/◌, ◌%◌, ◌^◌, ◌≤◌, ◌<◌, ◌≡◌, sym, ap, ◌∙◌, bit_and, arith,
}
use software_vsync_modulatio.Prelude.Bitwise.{bit_and_field, bit_and_mask}
use software_vsync_modulatio.Bits.{all_ones, genmask, getbits_val, extract_bits}

two-pow-add : (a b : ℕ) → 2 ^ (a + b) ≡ 2 ^ a * 2 ^ b
two-pow-add a zero = omega (arith, ap (λ (n : ℕ). 2 ^ n) {x = a + 0} {y = a} (omega arith))
two-pow-add a (suc b) =
    ap (λ (n : ℕ). 2 ^ n) {x = a + suc b} {y = suc (a + b)} (omega arith)
    ∙ pow-suc 2 (a + b)
    ∙ ap (λ (n : ℕ). n * 2) (two-pow-add a b)
    ∙ mul_assoc (2 ^ a) (2 ^ b) 2
    ∙ ap (λ (n : ℕ). 2 ^ a * n) (sym (pow-suc 2 b))

-- The two halves of the mask, by the weight `low` of a field's lowest bit.
upper_ones :
    (low : ℕ) → 1 ≤ low → low ≤ 2 ^ 64 → (all_ones + 2 ^ 64 - low + 1) % 2 ^ 64 ≡ 2 ^ 64 - low
upper_ones low h k = omega arith

lower_ones : (size high : ℕ) → 1 ≤ size → 1 ≤ high → (size * high - 1) / high ≡ size - 1
lower_ones zero high h k = absurd (omega arith)
lower_ones (suc size) zero h k = absurd (omega arith)
lower_ones (suc size) (suc high) h k =
    ap (λ (n : ℕ). n / suc high) {x = suc size * suc high - 1} {y = size * suc high + high}
      (omega (arith, add-mul size 1 (suc high)))
    ∙ mul-add-div_right (omega arith) size high
    ∙ omega (arith, div-eq_of_lt {n = high} {m = suc high} (omega arith))

ones_rem :
    (size low high : ℕ) → 1 ≤ low → low ≤ size → 1 ≤ high → (size * high - low) % size ≡ size - low
ones_rem size low zero h k g = absurd (omega arith)
ones_rem size low (suc high) h k g =
    ap (λ (n : ℕ). n % size) {x = size * suc high - low} {y = high * size + (size - low)}
      (grind arith)
    ∙ mul-add-mod_self_right high size (size - low)
    ∙ mod-eq_of_lt (omega arith)

two_pos : 0 < 2
two_pos = omega arith

take_one : (v n : ℕ) → 1 ≤ v → v * n - n ≡ (v - 1) * n
take_one zero n h = absurd (omega arith)
take_one (suc v) n h = grind arith

pub genmask-eq : (l w : ℕ) → l + w < 64 → genmask (l + w) l ≡ (2 ^ (w + 1) - 1) * 2 ^ l
unfolding genmask
genmask-eq l w h =
    ap (λ (n : ℕ). bit_and n (all_ones / 2 ^ (63 - (l + w))))
      (upper_ones (2 ^ l) (one-le-pow l 2 two_pos)
        (pow-le-pow_right two_pos {j = 64} (omega arith)))
    ∙ ap (λ (n : ℕ). bit_and (2 ^ 64 - 2 ^ l) n)
        (ap (λ (n : ℕ). (n - 1) / 2 ^ (63 - (l + w))) (sym whole)
          ∙ lower_ones (2 ^ (w + 1 + l)) (2 ^ (63 - (l + w))) (one-le-pow _ 2 two_pos)
              (one-le-pow _ 2 two_pos))
    ∙ bit_and_mask (w + 1 + l) (2 ^ 64 - 2 ^ l)
    ∙ ap (λ (n : ℕ). (n - 2 ^ l) % 2 ^ (w + 1 + l)) (sym whole)
    ∙ ones_rem (2 ^ (w + 1 + l)) (2 ^ l) (2 ^ (63 - (l + w))) (one-le-pow l 2 two_pos)
        (pow-le-pow_right two_pos (omega arith)) (one-le-pow _ 2 two_pos)
    ∙ ap (λ (n : ℕ). n - 2 ^ l) (two-pow-add (w + 1) l)
    ∙ take_one (2 ^ (w + 1)) (2 ^ l) (one-le-pow (w + 1) 2 two_pos)
  where
    whole : 2 ^ (w + 1 + l) * 2 ^ (63 - (l + w)) ≡ 2 ^ 64
    whole =
        sym (two-pow-add (w + 1 + l) (63 - (l + w)))
        ∙ ap (λ (n : ℕ). 2 ^ n) {x = w + 1 + l + (63 - (l + w))} {y = 64} (omega arith)

mul-pow-div : (l x : ℕ) → x * 2 ^ l / 2 ^ l ≡ x
mul-pow-div l x = grind (arith, one-le-pow l 2)

-- `GETBITS_VAL(v, l + w, l)` is the field of `w + 1` bits from bit `l` on.
pub getbits_val-eq : (v l w : ℕ) → l + w < 64 → getbits_val v (l + w) l ≡ v / 2 ^ l % 2 ^ (w + 1)
unfolding getbits_val
getbits_val-eq v l w h = rw (genmask-eq l w h, bit_and_field l (w + 1) v) (mul-pow-div l _)

-- For each field of at most 30 bits within 32, the printer's extract_bits and GETBITS_VAL read the
-- same value.
pub extract_bits-eq-getbits_val :
    (v l w : ℕ) → l + w < 32 → w < 30 → extract_bits v l (l + w) ≡ getbits_val v (l + w) l
unfolding extract_bits
extract_bits-eq-getbits_val v l w h k =
    ap (λ (n : ℕ). bit_and (v / 2 ^ l) (2 ^ n - 1)) {x = l + w + 1 - l} {y = w + 1} (omega arith)
    ∙ bit_and_mask (w + 1) (v / 2 ^ l)
    ∙ sym (getbits_val-eq v l w (omega arith))
