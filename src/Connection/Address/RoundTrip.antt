-- ===== src/Connection/Address/RoundTrip.antt =====
-- A printed ethernet address is read back.
use software_vsync_modulatio.Prelude.{
  ℕ, suc, ◌+◌, ◌-◌, ◌*◌, ◌/◌, ◌%◌, ◌^◌, ◌<◌, ◌≡◌, refl, ap, ◌∙◌, true, false, some, List, [], ◌∷◌,
  ltb, length, set, arith, if◌then◌else◌,
}
use software_vsync_modulatio.Options.{Text, skip_space, sign}
use software_vsync_modulatio.Connection.Address.{
  hex_value, hex_digits, starts_with_digit, skip_prefix, strtoul, ispunct, l2_loop, str_to_l2_addr,
}

-- A digit below 16, and the two digits of a byte in front of `rest`.
abbrev pub hex_digit : ℕ → ℕ
hex_digit d = if ltb d 10 then b'0' + d else b'a' + (d - 10)

abbrev pub hex_byte : ℕ → Text → Text
hex_byte v rest = hex_digit (v / 16) ∷ (hex_digit (v % 16) ∷ rest)

-- The rest of a text that ends, or goes on with a colon.
abbrev Stops : Text → Type 0
Stops [] = Unit
Stops (c ∷ cs) = c ≡ b':'

hex_value-hex_digit : (d : ℕ) → d < 16 → hex_value (hex_digit d) ≡ some d
unfolding hex_value
hex_value-hex_digit d h = ground arith

hex_digits-stop : (n : ℕ) (rest : Text) → Stops rest → hex_digits n rest ≡ (n, rest)
unfolding hex_digits hex_value
hex_digits-stop n [] h = refl
hex_digits-stop n (c ∷ cs) h = rw h refl

skip_space-hex_digit :
    (d : ℕ) (rest : Text) → d < 16 → skip_space (hex_digit d ∷ rest) ≡ hex_digit d ∷ rest
unfolding skip_space
skip_space-hex_digit d rest h = ground arith

sign-hex_digit :
    (d : ℕ) (rest : Text) → d < 16 → sign (hex_digit d ∷ rest) ≡ (false, hex_digit d ∷ rest)
unfolding sign
sign-hex_digit d rest h = ground arith

skip_prefix-hex_digit :
    (d e : ℕ) (rest : Text)
    → e < 16
    → skip_prefix (hex_digit d ∷ (hex_digit e ∷ rest)) ≡ hex_digit d ∷ (hex_digit e ∷ rest)
unfolding skip_prefix
skip_prefix-hex_digit d e rest h = ground arith

hex_digits-hex_digit :
    (n d : ℕ) (rest : Text)
    → d < 16
    → hex_digits n (hex_digit d ∷ rest) ≡ hex_digits (n * 16 + d) rest
unfolding hex_digits
hex_digits-hex_digit n d rest h = rw (hex_value-hex_digit d h, hex_digits) refl

starts_with_digit-hex_digit :
    (d : ℕ) (rest : Text) → d < 16 → starts_with_digit (hex_digit d ∷ rest) ≡ true
unfolding starts_with_digit
starts_with_digit-hex_digit d rest h = rw (hex_value-hex_digit d h, starts_with_digit) refl

strtoul-hex_byte :
    (v : ℕ) (rest : Text) → v < 2 ^ 8 → Stops rest → strtoul (hex_byte v rest) ≡ (v, rest)
unfolding strtoul
strtoul-hex_byte v rest small stops =
    let high : v / 16 < 16 = omega arith in
    let low : v % 16 < 16 = omega arith in
    let value : hex_digits 0 (hex_byte v rest) ≡ (v, rest) =
      hex_digits-hex_digit 0 (v / 16) (hex_digit (v % 16) ∷ rest) high
      ∙ hex_digits-hex_digit (0 * 16 + v / 16) (v % 16) rest low
      ∙ hex_digits-stop ((0 * 16 + v / 16) * 16 + v % 16) rest stops
      ∙ ap (λ (n : ℕ). (n, rest)) (omega arith) in
    rw
      (
        skip_space-hex_digit (v / 16) (hex_digit (v % 16) ∷ rest) high,
        sign-hex_digit (v / 16) (hex_digit (v % 16) ∷ rest) high,
        skip_prefix-hex_digit (v / 16) (v % 16) rest low,
        value,
        starts_with_digit-hex_digit (v / 16) (hex_digit (v % 16) ∷ rest) high,
      )
      (ground arith)

-- The six bytes in front of `rest`, with colons between them.
abbrev pub printed : ℕ → ℕ → ℕ → ℕ → ℕ → ℕ → Text
printed a b c d e f = hex_byte a (
    b':'
    ∷ hex_byte b (b':' ∷ hex_byte c (b':' ∷ hex_byte d (b':' ∷ hex_byte e (b':' ∷ hex_byte f [])))))

-- A byte that is followed by a colon, in a round before the last.
l2_loop-step :
    (left i at v : ℕ) (rest : Text) (addr : List ℕ)
    → v < 2 ^ 8
    → at < 17
    → l2_loop (suc left) i 17 at (hex_byte v (b':' ∷ rest)) addr
      ≡ l2_loop left (i + 1) 17 (at + 3) rest (set addr i v)
unfolding l2_loop ispunct
l2_loop-step left i at v rest addr small before =
    let read : strtoul (hex_byte v (b':' ∷ rest)) ≡ (v, b':' ∷ rest) =
      strtoul-hex_byte v (b':' ∷ rest) small refl in
    let byte : v % 256 ≡ v = omega arith in
    let place : at + (length (hex_byte v (b':' ∷ rest)) - length {A = ℕ} (b':' ∷ rest)) + 1
        ≡ at + 3 =
      omega arith in
    rw (read, ap (λ (r : ℕ × Text). r.0) read, ap (λ (r : ℕ × Text). r.1) read, byte, place)
      (ground arith)

-- The last byte.
l2_loop-end :
    (left i at v : ℕ) (addr : List ℕ)
    → v < 2 ^ 8
    → at < 17
    → l2_loop (suc left) i 17 at (hex_byte v []) addr ≡ (i, set addr i v)
unfolding l2_loop
l2_loop-end left i at v addr small before =
    let read : strtoul (hex_byte v []) ≡ (v, []) = strtoul-hex_byte v [] small tt in
    let byte : v % 256 ≡ v = omega arith in
    rw (read, ap (λ (r : ℕ × Text). r.0) read, byte) (ground arith)

-- An address of six bytes that is printed with two digits each and colons between them is accepted,
-- and gives these bytes, whatever the six were before.
pub str_to_l2_addr-printed :
    (a b c d e f a₀ b₀ c₀ d₀ e₀ f₀ : ℕ)
    → a < 2 ^ 8
    → b < 2 ^ 8
    → c < 2 ^ 8
    → d < 2 ^ 8
    → e < 2 ^ 8
    → f < 2 ^ 8
    → str_to_l2_addr (printed a b c d e f) (a₀ ∷ b₀ ∷ c₀ ∷ d₀ ∷ e₀ ∷ f₀ ∷ [])
      ≡ (true, a ∷ b ∷ c ∷ d ∷ e ∷ f ∷ [])
unfolding str_to_l2_addr
str_to_l2_addr-printed a b c d e f a₀ b₀ c₀ d₀ e₀ f₀ ha hb hc hd he hf =
    rw
      (
        l2_loop-step 5 0 0 a
            (hex_byte b
              (b':' ∷ hex_byte c (b':' ∷ hex_byte d (b':' ∷ hex_byte e (b':' ∷ hex_byte f [])))))
            (a₀ ∷ b₀ ∷ c₀ ∷ d₀ ∷ e₀ ∷ f₀ ∷ []) ha (omega arith),
        l2_loop-step 4 1 3 b
            (hex_byte c (b':' ∷ hex_byte d (b':' ∷ hex_byte e (b':' ∷ hex_byte f []))))
            (a ∷ b₀ ∷ c₀ ∷ d₀ ∷ e₀ ∷ f₀ ∷ []) hb (omega arith),
        l2_loop-step 3 2 6 c (hex_byte d (b':' ∷ hex_byte e (b':' ∷ hex_byte f [])))
            (a ∷ b ∷ c₀ ∷ d₀ ∷ e₀ ∷ f₀ ∷ []) hc (omega arith),
        l2_loop-step 2 3 9 d (hex_byte e (b':' ∷ hex_byte f [])) (a ∷ b ∷ c ∷ d₀ ∷ e₀ ∷ f₀ ∷ []) hd
            (omega arith),
        l2_loop-step 1 4 12 e (hex_byte f []) (a ∷ b ∷ c ∷ d ∷ e₀ ∷ f₀ ∷ []) he (omega arith),
        l2_loop-end 0 5 15 f (a ∷ b ∷ c ∷ d ∷ e ∷ f₀ ∷ []) hf (omega arith),
      )
      refl
