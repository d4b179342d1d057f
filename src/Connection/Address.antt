-- ===== src/Connection/Address.antt =====
-- swgenlock/connection.cpp: the ethernet address on the command line.
pub mod RoundTrip
use software_vsync_modulatio.Prelude.{
  ℕ, zero, suc, ◌+◌, ◌-◌, ◌*◌, ◌/◌, ◌%◌, ◌^◌, ◌<◌, ◌≡◌, refl, Bool, true, false, Option, none, some,
  List, [], ◌∷◌, ◌++◌, ◌==◌, ◌&&◌, ◌||◌, ltb, leb, min, length, set, arith, if◌then◌else◌,
}
use software_vsync_modulatio.Options.{Text, skip_space, sign}

-- The value of a hexadecimal digit.
pub hex_value : ℕ → Option ℕ
hex_value c =
    if leb b'0' c && leb c b'9'
    then some (c - b'0')
    else (if leb b'a' c && leb c b'f'
        then some (c - b'a' + 10)
        else (if leb b'A' c && leb c b'F' then some (c - b'A' + 10) else none))

-- The digits in front, as a number, and what is left.
pub hex_digits : ℕ → Text → ℕ × Text
unfolding hex_value
hex_digits n [] = (n, [])
hex_digits n (c ∷ cs) = elim (hex_value c) [
  | none ↦ (n, c ∷ cs)
  | some v ↦ hex_digits (n * 16 + v) cs
]

pub starts_with_digit : Text → Bool
unfolding hex_value
starts_with_digit [] = false
starts_with_digit (c ∷ cs) = elim (hex_value c) [ none ↦ false | some v ↦ true ]

-- `0x` in front of a digit.
pub skip_prefix : Text → Text
unfolding starts_with_digit
skip_prefix [] = []
skip_prefix (c ∷ []) = c ∷ []
skip_prefix (c ∷ x ∷ cs) =
    if c == b'0' && ((x == b'x' || x == b'X') && starts_with_digit cs) then cs else c ∷ (x ∷ cs)

-- `strtoul(str, &str, 16)`: the value and what is left of the string, which is all of it where there
-- is no number.
pub strtoul : Text → ℕ × Text
unfolding skip_prefix starts_with_digit hex_digits
strtoul str =
    let (minus, signed) = sign (skip_space str) in
    let digits = skip_prefix signed in
    let (n, rest) = hex_digits 0 digits in
    if starts_with_digit digits
    then (
      (if ltb n (2 ^ 64) then (if minus then (2 ^ 64 - n) % 2 ^ 64 else n) else 2 ^ 64 - 1),
      rest,
    )
    else (0, str)

-- `ispunct`, in the locale of C.
pub ispunct : ℕ → Bool
ispunct c =
    leb 33 c && leb c 47
    || (leb 58 c && leb c 64 || (leb 91 c && leb c 96 || leb 123 c && leb c 126))

-- The loop from byte `i` with `left` rounds to go; `at` is the place of `str` in the address, and
-- `len` the length that it is read to. The result is the byte at which the loop ends.
pub l2_loop : ℕ → ℕ → ℕ → ℕ → Text → List ℕ → ℕ × List ℕ
unfolding strtoul ispunct
l2_loop zero i len at str addr = (i, addr)
l2_loop (suc left) i len at str addr =
    if leb len at
    then (i, addr)
    else (let (tmp, rest) = strtoul str in
        if tmp == 256
        then (i, addr)
        else (let addr' = set addr i (tmp % 256) in
            let place = at + (length str - length rest) in
            elim rest [
              | [] ↦ (i, addr')
              | c ∷ cs ↦
                  let more = l2_loop left (i + 1) len (place + 1) cs addr' in
                  if ispunct c then more else (i, addr')
            ]))

-- `MAX_MAC_ADDR_LEN` is 17, and `ETH_ALEN` is 6.
unfoldable pub str_to_l2_addr : Text → List ℕ → Bool × List ℕ
unfolding l2_loop
str_to_l2_addr str addr =
    let (i, addr') = l2_loop 6 0 (min 17 (length str)) 0 str addr in (i == 5, addr')
