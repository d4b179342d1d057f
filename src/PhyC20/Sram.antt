-- ===== src/PhyC20/Sram.antt =====
-- What the memory of a c20 PHY promises of the messages that reach it, and what it makes of
-- `intel_c20_sram_read` and `intel_c20_sram_write`.
use software_vsync_modulatio.Prelude.{
  ℕ, ◌+◌, ◌*◌, ◌/◌, ◌%◌, ◌^◌, ◌<◌, ◌≡◌, refl, ap, ◌∙◌, Bool, true, false, bit_and, bit_or, ◌==◌,
  arith, if◌then◌else◌,
}
use software_vsync_modulatio.Prelude.Bitwise.{bit_and_mask, bit_or_fields}
use software_vsync_modulatio.Bits.{u8, u16}
use software_vsync_modulatio.Cx0.Lanes.{
  Cx0Bus, intel_c20_sram_read, intel_c20_sram_write, wr_address_l, wr_address_h, wr_data_l,
  wr_data_h, rd_address_l, rd_address_h, rd_data_l, rd_data_h,
}

-- `latch a` is the message register `a` of lane 0, and `memory a` a word of the memory. The low
-- byte of a read address fetches the word, and the low byte of data stores one; every other
-- message only sets or reads its register.
pub record IsSram {D : Type 0} (bus : Cx0Bus D) (port : ℕ) (latch memory : ℕ → D → ℕ) : Type 0 where
  pub memory_word : (a : ℕ) (d : D) → memory a d < 2 ^ 16
  pub read_value : (a : ℕ) (d : D) → (bus.bus_read port 1 a d).0 ≡ latch a d
  pub read_keeps_latch : (a b : ℕ) (d : D) → latch b (bus.bus_read port 1 a d).1 ≡ latch b d
  pub read_keeps : (a b : ℕ) (d : D) → memory b (bus.bus_read port 1 a d).1 ≡ memory b d
  pub write_latch :
      (a v b : ℕ) (c : Bool) (d : D)
      → v < 2 ^ 8
      → (a == rd_address_l) ≡ false
      → latch b (bus.bus_write port 1 a v c d) ≡ (if b == a then v else latch b d)
  pub write_keeps :
      (a v b : ℕ) (c : Bool) (d : D)
      → v < 2 ^ 8
      → (a == wr_data_l) ≡ false
      → memory b (bus.bus_write port 1 a v c d) ≡ memory b d
  pub fetch_high :
      (v : ℕ) (d : D)
      → v < 2 ^ 8
      → latch rd_data_h (bus.bus_write port 1 rd_address_l v true d)
        ≡ memory (latch rd_address_h d * 2 ^ 8 + v) d / 2 ^ 8
  pub fetch_low :
      (v : ℕ) (d : D)
      → v < 2 ^ 8
      → latch rd_data_l (bus.bus_write port 1 rd_address_l v true d)
        ≡ memory (latch rd_address_h d * 2 ^ 8 + v) d % 2 ^ 8
  pub store_word :
      (v b : ℕ) (d : D)
      → v < 2 ^ 8
      → memory b (bus.bus_write port 1 wr_data_l v true d) ≡ (
          if b == latch wr_address_h d * 2 ^ 8 + latch wr_address_l d
          then latch wr_data_h d * 2 ^ 8 + v
          else memory b d)

low_byte : (n : ℕ) → bit_and n 0xFF ≡ n % 2 ^ 8
low_byte n = bit_and_mask 8 n

-- The two bytes of a word, put together.
join_bytes : (m : ℕ) → m < 2 ^ 16 → u16 (bit_or (u16 (m / 2 ^ 8 * 2 ^ 8)) (m % 2 ^ 8)) ≡ m
join_bytes m h =
    ap (λ (n : ℕ). u16 (bit_or n (m % 2 ^ 8))) {x = u16 (m / 2 ^ 8 * 2 ^ 8)} {y = m / 2 ^ 8 * 2 ^ 8}
      (omega arith)
    ∙ ap u16 (bit_or_fields 8 (m / 2 ^ 8) (m % 2 ^ 8) (omega arith))
    ∙ omega arith

module _ {D : Type 0} (bus : Cx0Bus D) (port : ℕ) {latch memory : ℕ → D → ℕ}
    (law : IsSram bus port latch memory) where
  -- The device when the word at `a` has been fetched.
  module _ (a : ℕ) (d : D) (h : a < 2 ^ 16) where
    abbrev addressed : D
    addressed = bus.bus_write port 1 rd_address_h (u8 (a / 2 ^ 8)) false d

    abbrev fetched : D
    fetched = bus.bus_write port 1 rd_address_l (bit_and a 0xFF) true addressed

    low_small : bit_and a 0xFF < 2 ^ 8
    low_small = rw (low_byte a) (omega arith)

    word_fetched :
        memory (latch rd_address_h addressed * 2 ^ 8 + bit_and a 0xFF) addressed ≡ memory a d
    word_fetched =
        law.write_keeps rd_address_h (u8 (a / 2 ^ 8)) _ false d (omega arith) refl
        ∙ ap (λ (n : ℕ). memory n d)
            (omega (
              arith,
              law.write_latch rd_address_h (u8 (a / 2 ^ 8)) rd_address_h false d (omega arith) refl,
              low_byte a,
            ))

    high_read : (bus.bus_read port 1 rd_data_h fetched).0 ≡ memory a d / 2 ^ 8
    high_read =
        law.read_value rd_data_h fetched
        ∙ law.fetch_high _ addressed low_small
        ∙ ap (λ (n : ℕ). n / 2 ^ 8) word_fetched

    low_read :
        (bus.bus_read port 1 rd_data_l (bus.bus_read port 1 rd_data_h fetched).1).0
        ≡ memory a d % 2 ^ 8
    low_read =
        law.read_value rd_data_l _
        ∙ law.read_keeps_latch rd_data_h rd_data_l fetched
        ∙ law.fetch_low _ addressed low_small
        ∙ ap (λ (n : ℕ). n % 2 ^ 8) word_fetched

    -- A read of the memory gives the word and changes none.
    pub sram_read-value :
        ((intel_c20_sram_read bus port 1 a d).0 ≡ memory a d)
        × ((b : ℕ) → memory b (intel_c20_sram_read bus port 1 a d).1 ≡ memory b d)
    unfolding intel_c20_sram_read
    sram_read-value = (
      rw (high_read, low_read) (join_bytes (memory a d) (law.memory_word a d)),
      λ b.
          law.read_keeps rd_data_l b _
          ∙ law.read_keeps rd_data_h b fetched
          ∙ law.write_keeps rd_address_l _ b true addressed low_small refl
          ∙ law.write_keeps rd_address_h _ b false d (omega arith) refl,
    )

  -- A write of the memory changes the one word.
  module _ (a v : ℕ) (d : D) (h : a < 2 ^ 16) (k : v < 2 ^ 16) where
    abbrev at_high : D
    at_high = bus.bus_write port 1 wr_address_h (u8 (a / 2 ^ 8)) false d

    abbrev at_low : D
    at_low = bus.bus_write port 1 wr_address_l (bit_and a 0xFF) false at_high

    abbrev loaded : D
    loaded = bus.bus_write port 1 wr_data_h (u8 (v / 2 ^ 8)) false at_low

    address_small : bit_and a 0xFF < 2 ^ 8
    address_small = rw (low_byte a) (omega arith)

    value_small : bit_and v 0xFF < 2 ^ 8
    value_small = rw (low_byte v) (omega arith)

    memory_loaded : (b : ℕ) → memory b loaded ≡ memory b d
    memory_loaded b =
        law.write_keeps wr_data_h _ b false at_low (omega arith) refl
        ∙ law.write_keeps wr_address_l _ b false at_high address_small refl
        ∙ law.write_keeps wr_address_h _ b false d (omega arith) refl

    address_loaded : latch wr_address_h loaded * 2 ^ 8 + latch wr_address_l loaded ≡ a
    address_loaded = ground (
      arith,
      law.write_latch wr_data_h (u8 (v / 2 ^ 8)) wr_address_h false at_low (omega arith) refl,
      law.write_latch wr_data_h (u8 (v / 2 ^ 8)) wr_address_l false at_low (omega arith) refl,
      law.write_latch wr_address_l (bit_and a 0xFF) wr_address_h false at_high address_small refl,
      law.write_latch wr_address_l (bit_and a 0xFF) wr_address_l false at_high address_small refl,
      law.write_latch wr_address_h (u8 (a / 2 ^ 8)) wr_address_h false d (omega arith) refl,
      low_byte a,
    )

    value_loaded : latch wr_data_h loaded * 2 ^ 8 + bit_and v 0xFF ≡ v
    value_loaded = ground (
      arith,
      law.write_latch wr_data_h (u8 (v / 2 ^ 8)) wr_data_h false at_low (omega arith) refl,
      low_byte v,
    )

    pub sram_write-value :
        (b : ℕ)
        → memory b (intel_c20_sram_write bus port 1 a v d) ≡ (if b == a then v else memory b d)
    unfolding intel_c20_sram_write
    sram_write-value b =
        law.store_word _ b loaded value_small
        ∙ rw (address_loaded, value_loaded, memory_loaded b) refl
