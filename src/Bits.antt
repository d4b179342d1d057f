-- ===== src/Bits.antt =====
-- lib/macros.h (bit macros), lib/cx0_helper.h (REG_FIELD_PREP, REG_FIELD_GET) and lib/utils.cpp.
-- `1UL` is 64 bits wide.
pub mod Fields
pub mod Binary
use software_vsync_modulatio.Prelude.{
  ℕ, zero, suc, ◌+◌, ◌-◌, ◌*◌, ◌/◌, ◌%◌, ◌^◌, Bool, true, false, not, List, [], ◌∷◌, bit_and,
  bit_or, ◌==◌, ◌||◌, if◌then◌else◌,
}

-- Casts to `uint8_t`, `uint16_t` and `uint32_t`.
abbrev pub u8 : ℕ → ℕ
u8 n = n % 2 ^ 8

abbrev pub u16 : ℕ → ℕ
u16 n = n % 2 ^ 16

abbrev pub u32 : ℕ → ℕ
u32 n = n % 2 ^ 32

-- `~0UL`
abbrev pub all_ones : ℕ
all_ones = 2 ^ 64 - 1

-- `~m` in 64 bits
abbrev pub complement : ℕ → ℕ
complement m = all_ones - m

unfoldable pub bit : ℕ → ℕ
bit nr = 2 ^ nr % 2 ^ 64

-- `((~0UL) - (1UL << l) + 1) & (~0UL >> (63 - h))`
unfoldable pub genmask : ℕ → ℕ → ℕ
genmask h l = bit_and ((all_ones + 2 ^ 64 - 2 ^ l + 1) % 2 ^ 64) (all_ones / 2 ^ (63 - h))

unfoldable pub getbits_val : ℕ → ℕ → ℕ → ℕ
getbits_val val h l = bit_and val (genmask h l) / 2 ^ l

unfoldable pub setbit : ℕ → ℕ → ℕ
setbit val b = bit_or val (2 ^ b)

-- `x &= ~mask; x |= value` on a `uint32_t`
unfoldable pub replace_bits : ℕ → ℕ → ℕ → ℕ
replace_bits x mask value = u32 (bit_or (u32 (bit_and x (complement mask))) value)

-- `__builtin_ffsll(x) - 1`: the place of the lowest one; 64 bits are enough.
unfoldable pub lowest_one : ℕ → ℕ → ℕ
lowest_one zero x = 0
lowest_one (suc fuel) x = if x % 2 == 1 then 0 else suc (lowest_one fuel (x / 2))

unfoldable pub bf_shf : ℕ → ℕ
unfolding lowest_one
bf_shf mask = lowest_one 64 mask

unfoldable pub reg_field_prep : ℕ → ℕ → ℕ
unfolding bf_shf
reg_field_prep mask val = u32 (bit_and (val * 2 ^ bf_shf mask % 2 ^ 64) mask)

unfoldable pub reg_field_get : ℕ → ℕ → ℕ
unfolding bf_shf
reg_field_get mask val = u32 (bit_and val mask / 2 ^ bf_shf mask)

-- `extract_bits` of lib/utils.cpp, for a field of at most 30 bits: `1 << num_bit` is an `int`.
pub extract_bits : ℕ → ℕ → ℕ → ℕ
extract_bits value start_bit end_bit =
    let num_bit = end_bit + 1 - start_bit in bit_and (value / 2 ^ start_bit) (2 ^ num_bit - 1)

-- The loop of `to_binary_string` from bit `i - 1` down to 0; the flag is `first_one_found`. The
-- terminating 0 of the buffer is left out.
pub binary_digits : ℕ → ℕ → Bool → List ℕ
binary_digits value zero found = []
binary_digits value (suc i) found =
    let one = not (bit_and value (2 ^ i) == 0) in
    (if one then b'1' else if found || i == 0 then b'0' else b' ')
    ∷ binary_digits value i (found || one)

pub to_binary_string : ℕ → ℕ → List ℕ
to_binary_string value num_bits = binary_digits value num_bits false
