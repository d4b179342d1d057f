-- ===== src/PhyC20/Sample.antt =====
-- The memory of a c20 PHY that runs: an instance of the promises of the module Sram.
use software_vsync_modulatio.Prelude.{ℕ, ◌+◌, ◌*◌, ◌/◌, ◌%◌, ◌^◌, refl, ◌==◌, arith, if◌then◌else◌}
use software_vsync_modulatio.Cx0.Lanes.{
  Cx0Bus, wr_address_l, wr_address_h, wr_data_l, wr_data_h, rd_address_l, rd_address_h, rd_data_l,
  rd_data_h,
}
use software_vsync_modulatio.PhyC20.Sram.{IsSram}

pub record SramState : Type 0 where
  pub latches : ℕ → ℕ
  pub words : ℕ → ℕ

abbrev set_latch : ℕ → ℕ → SramState → SramState
set_latch a v d = record d { latches = λ b. if b == a then v else d.latches b }

abbrev pub latch_of : ℕ → SramState → ℕ
latch_of a d = d.latches a % 2 ^ 8

abbrev pub word_at : ℕ → SramState → ℕ
word_at a d = d.words a % 2 ^ 16

abbrev stored : ℕ → SramState → SramState
stored v d = record d {
  words = λ b.
      if b == latch_of wr_address_h d * 2 ^ 8 + latch_of wr_address_l d
      then latch_of wr_data_h d * 2 ^ 8 + v
      else d.words b;
}

-- The word at the read address, in the two data registers.
abbrev fetched : ℕ → SramState → SramState
fetched v d =
    let m = word_at (latch_of rd_address_h d * 2 ^ 8 + v) d in
    record d {
      latches = λ b.
          if b == rd_data_h then m / 2 ^ 8 else if b == rd_data_l then m % 2 ^ 8 else d.latches b;
    }

abbrev pub sram_bus : Cx0Bus SramState
sram_bus = record {
  bus_read = λ port mask a d. (latch_of a d, d);
  bus_write = λ port mask a v c d.
      if a == rd_address_l
      then fetched v d
      else (if a == wr_data_l then set_latch a v (stored v d) else set_latch a v d);
  bus_rmw = λ port mask a clear new c d. d;
}

pub sram_bus-IsSram : (port : ℕ) → IsSram sram_bus port latch_of word_at
sram_bus-IsSram port = record {
  memory_word = λ a d. omega arith;
  read_value = λ a d. refl;
  read_keeps_latch = λ a b d. refl;
  read_keeps = λ a b d. refl;
  write_latch = λ a v b c d h ne. ground arith;
  write_keeps = λ a v b c d h ne. ground arith;
  fetch_high = λ v d h. omega arith;
  fetch_low = λ v d h. omega arith;
  store_word = λ v b d h. ground arith;
}
