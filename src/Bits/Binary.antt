-- ===== src/Bits/Binary.antt =====
-- The printed binary form of a register reads back as the register.
use software_vsync_modulatio.Prelude.{
  ℕ, zero, suc, ◌+◌, ◌-◌, ◌*◌, ◌/◌, ◌%◌, ◌^◌, ◌≡◌, refl, sym, ap, ap₂, ◌∙◌, Bool, false, not, List,
  [], ◌∷◌, bit_and, ◌==◌, ◌||◌, arith, length, if◌then◌else◌,
}
use software_vsync_modulatio.Prelude.Bitwise.{
  bit_and_field, bit_and_mask, bit_and_ones, bit_and_split,
}
use software_vsync_modulatio.Bits.{binary_digits, to_binary_string}
use native.Mathlib.Nat.{pow-suc, one-le-pow, div-add-mod'}

-- The number that a string of '0', '1' and blanks stands for.
abbrev pub binary_value : ℕ → List ℕ → ℕ
binary_value acc [] = acc
binary_value acc (c ∷ cs) = binary_value (acc * 2 + (if c == b'1' then 1 else 0)) cs

-- The test of one bit, and the digit that is written for it.
abbrev is_one : ℕ → ℕ → Bool
is_one v i = not (bit_and v (2 ^ i) == 0)

abbrev digit : ℕ → ℕ → Bool → ℕ
digit v i found = if is_one v i then b'1' else if found || i == 0 then b'0' else b' '

bit_value : (v i : ℕ) (found : Bool) → (if digit v i found == b'1' then 1 else 0) ≡ v / 2 ^ i % 2
bit_value v i found = ground (arith, bit_and_field i 1 v, one-le-pow i 2)

mod-pow-suc : (v i : ℕ) → v % 2 ^ suc i ≡ v / 2 ^ i % 2 * 2 ^ i + v % 2 ^ i
mod-pow-suc v i =
    sym (bit_and_mask (suc i) v)
    ∙ ap₂ bit_and (sym (div-add-mod' v (2 ^ i)))
        (omega (arith, pow-suc 2 i, one-le-pow i 2 (omega arith)))
    ∙ bit_and_split i (v / 2 ^ i) (v % 2 ^ i) 1 (2 ^ i - 1)
        (omega (arith, one-le-pow i 2 (omega arith))) (omega (arith, one-le-pow i 2 (omega arith)))
    ∙ ap₂ (λ (x y : ℕ). x * 2 ^ i + y) (bit_and_mask 1 (v / 2 ^ i))
        (bit_and_ones i (v % 2 ^ i) (omega (arith, one-le-pow i 2 (omega arith))))

binary_digits-value :
    (v n : ℕ) (found : Bool) (acc : ℕ)
    → binary_value acc (binary_digits v n found) ≡ acc * 2 ^ n + v % 2 ^ n
unfolding binary_digits
binary_digits-value v zero found acc = omega arith
binary_digits-value v (suc i) found acc =
    binary_digits-value v i (found || is_one v i)
      (acc * 2 + (if digit v i found == b'1' then 1 else 0))
    ∙ omega (
      arith,
      ap (λ (t : ℕ). t * 2 ^ i) (bit_value v i found),
      ap (λ (t : ℕ). acc * t) (pow-suc 2 i),
      mod-pow-suc v i,
    )

binary_digits-length : (v n : ℕ) (found : Bool) → length (binary_digits v n found) ≡ n
unfolding binary_digits
binary_digits-length v zero found = refl
binary_digits-length v (suc i) found = omega (arith, binary_digits-length v i _)

-- The string printed for a register has one character for each bit and stands for the register's
-- low bits.
pub to_binary_string-value :
    (value num_bits : ℕ)
    → (length (to_binary_string value num_bits) ≡ num_bits)
      × (binary_value 0 (to_binary_string value num_bits) ≡ value % 2 ^ num_bits)
unfolding to_binary_string
to_binary_string-value value n =
    (binary_digits-length value n false, binary_digits-value value n false 0 ∙ omega arith)
