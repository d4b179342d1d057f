-- ===== src/Cx0/Words.antt =====
-- The words of the messages, field by field.
use software_vsync_modulatio.Prelude.{
  ℕ, ◌+◌, ◌-◌, ◌*◌, ◌/◌, ◌%◌, ◌^◌, ◌<◌, ◌≡◌, refl, ap, ◌∙◌, Bool, true, false, bit_and, bit_or,
  arith, if◌then◌else◌,
}
use software_vsync_modulatio.Prelude.Bitwise.{bit_and_field, bit_and_mask, bit_or_fields}
use software_vsync_modulatio.Bits.{
  u32, bit, genmask, bf_shf, lowest_one, reg_field_prep, reg_field_get,
}
use software_vsync_modulatio.Cx0.Registers.{
  transaction_pending, error_set, command_type_mask, data_mask, address_mask, command_read,
  command_write_committed, command_write_uncommitted, read_word, write_word,
}

-- The kind of message: 3 is a read, 2 a committed and 1 an uncommitted write.
abbrev pub kind_of : Bool → ℕ
kind_of true = 2
kind_of false = 1

prep_address : (a : ℕ) → a < 2 ^ 12 → reg_field_prep address_mask a ≡ a
unfolding reg_field_prep address_mask genmask bf_shf lowest_one
prep_address a h =
    ap (λ (n : ℕ). u32 (bit_and n (2 ^ 12 - 1))) {x = a * 2 ^ 0 % 2 ^ 64} {y = a} (omega arith)
    ∙ ap u32 (bit_and_mask 12 a)
    ∙ omega arith

prep_data : (v : ℕ) → v < 2 ^ 8 → reg_field_prep data_mask v ≡ v * 2 ^ 16
unfolding reg_field_prep data_mask genmask bf_shf lowest_one
prep_data v h =
    ap (λ (n : ℕ). u32 (bit_and n ((2 ^ 8 - 1) * 2 ^ 16))) {x = v * 2 ^ 16 % 2 ^ 64}
      {y = v * 2 ^ 16} (omega arith)
    ∙ ap u32 (bit_and_field 16 8 (v * 2 ^ 16))
    ∙ omega arith

kind_bits :
    (c : Bool)
    → bit_or transaction_pending (if c then command_write_committed else command_write_uncommitted)
      ≡ (16 + kind_of c) * 2 ^ 27
unfolding transaction_pending bit command_write_committed command_write_uncommitted reg_field_prep
    command_type_mask genmask bf_shf lowest_one
kind_bits true = refl
kind_bits false = refl

pub read_word-eq : (a : ℕ) → a < 2 ^ 12 → read_word a ≡ 2 ^ 31 + 3 * 2 ^ 27 + a
unfolding read_word transaction_pending bit command_read reg_field_prep command_type_mask genmask
    bf_shf lowest_one
read_word-eq a h =
    ap (bit_or (19 * 2 ^ 27)) (prep_address a h) ∙ bit_or_fields 27 19 a (omega arith)

pub write_word-eq :
    (c : Bool) (a v : ℕ)
    → a < 2 ^ 12
    → v < 2 ^ 8
    → write_word c a v ≡ 2 ^ 31 + kind_of c * 2 ^ 27 + v * 2 ^ 16 + a
unfolding write_word
write_word-eq c a v small byte =
    let upper : ℕ = (16 + kind_of c) * 2 ^ 11 + v in
    let e : (16 + kind_of c) * 2 ^ 27 + v * 2 ^ 16 ≡ upper * 2 ^ 16 = omega arith in
    rw (kind_bits c, prep_data v byte, prep_address a small)
      (ap (λ (n : ℕ). bit_or n a) (bit_or_fields 27 (16 + kind_of c) (v * 2 ^ 16) (omega arith) ∙ e)
        ∙ bit_or_fields 16 upper a (omega arith)
        ∙ omega arith)

-- What the host reads out of a status: the error bit, the kind of answer and the byte.
pub error_bit : (w : ℕ) → w / 2 ^ 15 % 2 ≡ 0 → bit_and w error_set ≡ 0
unfolding error_set bit
error_bit w h = bit_and_field 15 1 w ∙ omega arith

pub kind_field : (w : ℕ) → w < 2 ^ 31 → reg_field_get command_type_mask w ≡ w / 2 ^ 27
unfolding reg_field_get command_type_mask genmask bf_shf lowest_one
kind_field w h = ap (λ (n : ℕ). u32 (n / 2 ^ 27)) (bit_and_field 27 4 w) ∙ omega arith

pub data_field : (w : ℕ) → reg_field_get data_mask w ≡ w / 2 ^ 16 % 2 ^ 8
unfolding reg_field_get data_mask genmask bf_shf lowest_one
data_field w = ap (λ (n : ℕ). u32 (n / 2 ^ 16)) (bit_and_field 16 8 w) ∙ omega arith
