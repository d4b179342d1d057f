-- ===== src/Cx0/Lanes.antt =====
-- lib/cx0_helper.cpp: reading and writing by lane masks, and the memory of a c20 PHY behind four
-- pairs of registers.
pub mod Log
use software_vsync_modulatio.Prelude.{
  ℕ, zero, suc, ◌+◌, ◌*◌, ◌/◌, ◌%◌, ◌^◌, Bool, true, false, Option, none, some, bit_and, bit_or,
  ◌==◌, if◌then◌else◌,
}
use software_vsync_modulatio.Bits.{u8, u16, bit}
use software_vsync_modulatio.Mmio.{Mmio}
use software_vsync_modulatio.Cx0.Message.{cx0_read, cx0_write, cx0_rmw}

-- `while (x >>= 1) log++`; `none` when the fuel runs out.
pub log_loop : ℕ → ℕ → ℕ → Option ℕ
log_loop zero x log = none
log_loop (suc fuel) x log =
    let rest = log_loop fuel (x / 2) (log + 1) in if x / 2 == 0 then some log else rest

-- An `unsigned int` has 32 bits.
unfoldable pub ilog2 : ℕ → ℕ
unfolding log_loop
ilog2 x = elim (log_loop 32 x 0) [ none ↦ 0 | some log ↦ log ]

unfoldable pub lane_mask_to_lane : ℕ → ℕ
unfolding ilog2
lane_mask_to_lane lane_mask = ilog2 lane_mask

-- `(lane_mask) & BIT(lane)`
unfoldable pub in_mask : ℕ → ℕ → Bool
unfolding bit
in_mask lane_mask lane = if bit_and lane_mask (bit lane) == 0 then false else true

-- `for_each_cx0_lane_in_mask`
unfoldable pub for_each_lane : {S : Type 0} → ℕ → (ℕ → S → S) → S → S
unfolding in_mask
for_each_lane lane_mask body s =
    let s' = if in_mask lane_mask 0 then body 0 s else s in
    if in_mask lane_mask 1 then body 1 s' else s'

module _ {D : Type 0} (mmio : Mmio D) where
  unfoldable pub intel_cx0_read : ℕ → ℕ → ℕ → D → ℕ × D
  unfolding lane_mask_to_lane
  intel_cx0_read port lane_mask addr d = cx0_read mmio port (lane_mask_to_lane lane_mask) addr d

  unfoldable pub intel_cx0_write : ℕ → ℕ → ℕ → ℕ → Bool → D → D
  unfolding for_each_lane
  intel_cx0_write port lane_mask addr value committed d =
      for_each_lane lane_mask (λ lane d'. cx0_write mmio port lane addr value committed d') d

  unfoldable pub intel_cx0_rmw : ℕ → ℕ → ℕ → ℕ → ℕ → Bool → D → D
  unfolding for_each_lane
  intel_cx0_rmw port lane_mask addr clear new committed d =
      for_each_lane lane_mask (λ lane d'. cx0_rmw mmio port lane addr clear new committed d') d

-- What the PHYs use of the bus.
pub record Cx0Bus (D : Type 0) : Type 0 where
  pub bus_read : ℕ → ℕ → ℕ → D → ℕ × D
  pub bus_write : ℕ → ℕ → ℕ → ℕ → Bool → D → D
  pub bus_rmw : ℕ → ℕ → ℕ → ℕ → ℕ → Bool → D → D

unfoldable pub cx0_bus : {D : Type 0} → Mmio D → Cx0Bus D
cx0_bus mmio = record {
  bus_read = intel_cx0_read mmio;
  bus_write = intel_cx0_write mmio;
  bus_rmw = intel_cx0_rmw mmio;
}

-- `PHY_C20_WR_ADDRESS_L` and its neighbours.
abbrev pub wr_address_l : ℕ
wr_address_l = 0xC02

abbrev pub wr_address_h : ℕ
wr_address_h = 0xC03

abbrev pub wr_data_l : ℕ
wr_data_l = 0xC04

abbrev pub wr_data_h : ℕ
wr_data_h = 0xC05

abbrev pub rd_address_l : ℕ
rd_address_l = 0xC06

abbrev pub rd_address_h : ℕ
rd_address_h = 0xC07

abbrev pub rd_data_l : ℕ
rd_data_l = 0xC08

abbrev pub rd_data_h : ℕ
rd_data_h = 0xC09

module _ {D : Type 0} (bus : Cx0Bus D) where
  open bus use {bus_read, bus_write}

  -- `lane` goes where the callees take a lane mask.
  unfoldable pub intel_c20_sram_read : ℕ → ℕ → ℕ → D → ℕ × D
  intel_c20_sram_read port lane addr d =
      let d₁ = bus_write port lane rd_address_h (u8 (addr / 2 ^ 8)) false d in
      let d₂ = bus_write port lane rd_address_l (bit_and addr 0xFF) true d₁ in
      let (high, d₃) = bus_read port lane rd_data_h d₂ in
      let (low, d₄) = bus_read port lane rd_data_l d₃ in (u16 (bit_or (u16 (high * 2 ^ 8)) low), d₄)

  unfoldable pub intel_c20_sram_write : ℕ → ℕ → ℕ → ℕ → D → D
  intel_c20_sram_write port lane addr value d =
      let d₁ = bus_write port lane wr_address_h (u8 (addr / 2 ^ 8)) false d in
      let d₂ = bus_write port lane wr_address_l (bit_and addr 0xFF) false d₁ in
      let d₃ = bus_write port lane wr_data_h (u8 (value / 2 ^ 8)) false d₂ in
      bus_write port lane wr_data_l (bit_and value 0xFF) true d₃
