-- ===== src/PhyC10/Restore.antt =====
-- The class of the c10 PHY over the message bus gives back the two registers that it programs.
use native.Mathlib.Nat.{mod-eq_of_lt}
use software_vsync_modulatio.Prelude.{
  ℕ, zero, suc, ◌+◌, ◌^◌, ◌<◌, ◌≡◌, refl, ap, ap₂, ◌∙◌, Bool, true, false, ◌==◌, ◌&&◌, arith, ltb,
  leb, if◌then◌else◌,
}
use software_vsync_modulatio.Bits.{u8, bit}
use software_vsync_modulatio.Double.{Double}
use software_vsync_modulatio.Phy.Restore.{IsRestorable}
use software_vsync_modulatio.Cx0.Lanes.{Cx0Bus, lane_mask_to_lane, in_mask}
use software_vsync_modulatio.Cx0.Lanes.Log.{lane0_lem}
use software_vsync_modulatio.Cx0.Bus.{IsPlainBus}
use software_vsync_modulatio.PhyC10.{
  C10Phy, c10, calculate_pll_clock, calculate_feedback_dividers, read_registers, read_each,
  program_mmio, write_quotient, vdr_pll, lane0,
}

module _ {W D : Type 0} (f : Double W) (bus : Cx0Bus D) (port : ℕ) {content : ℕ → ℕ → D → ℕ}
    (plain : IsPlainBus bus port content) where
  -- The two bytes of the quotient, in the PHY and in the object.
  abbrev pub live : C10Phy D → ℕ × ℕ
  live s = (content 0 (vdr_pll 11) s.device, content 0 (vdr_pll 12) s.device)

  abbrev pub saved : C10Phy D → ℕ × ℕ
  saved s = (u8 (s.pll_state_orig 11), u8 (s.pll_state_orig 12))

  lane0_below : lane_mask_to_lane lane0 < 2
  lane0_below = rw lane0_lem (omega arith)

  one_read : (a : ℕ) (d : D) → a < 2 ^ 12 → (bus.bus_read port lane0 a d).0 ≡ content 0 a d
  one_read a d h =
      plain.read_value lane0 a d lane0_below h ∙ ap (λ (l : ℕ). content l a d) lane0_lem

  -- After the loop, each register of its range is what the PHY holds.
  read_each-value :
      (left i : ℕ) (s : C10Phy D)
      → i + left < 2 ^ 8
      → ((l a : ℕ) → content l a (read_each f bus port left i s).device ≡ content l a s.device)
        × ((j : ℕ)
            → (read_each f bus port left i s).pll_state_orig j ≡ (
                if leb i j && ltb j (i + left)
                then content 0 (vdr_pll j) s.device
                else s.pll_state_orig j))
  unfolding read_each
  read_each-value zero i s h = (λ l a. refl, λ j. ground arith)
  read_each-value (suc left) i s h =
      let (kept, read) = read_each-value left (i + 1) _ (omega arith) in
      (
        λ l a. kept l a ∙ plain.read_keeps lane0 (vdr_pll i) l a s.device lane0_below (omega arith),
        λ j.
            read j
            ∙ ground (
              arith,
              plain.read_keeps lane0 (vdr_pll i) 0 (vdr_pll j) s.device lane0_below (omega arith),
              one_read (vdr_pll i) s.device (omega arith),
            ),
      )

  -- The registers of the quotient after a message for another register, and after one for them.
  rmw_elsewhere :
      (m a clear new b : ℕ) (c : Bool) (d : D)
      → a < 2 ^ 12
      → (b == a) ≡ false
      → content 0 b (bus.bus_rmw port m a clear new c d) ≡ content 0 b d
  rmw_elsewhere m a clear new b c d small ne =
      plain.rmw_value m a clear new 0 b c d small (omega arith) ∙ ground arith

  write_lane0 :
      (a v b : ℕ) (d : D)
      → a < 2 ^ 12
      → content 0 b (bus.bus_write port lane0 a (u8 v) true d)
        ≡ (if b == a then u8 v else content 0 b d)
  unfolding in_mask bit
  write_lane0 a v b d small =
      plain.write_value lane0 a (u8 v) 0 b true d small (omega arith) (omega arith)

  write_quotient-live :
      (regs : ℕ → ℕ) (d : D)
      → (content 0 (vdr_pll 11) (write_quotient f bus port regs d) ≡ u8 (regs 11))
        × (content 0 (vdr_pll 12) (write_quotient f bus port regs d) ≡ u8 (regs 12))
  unfolding write_quotient
  write_quotient-live regs d = (
    rmw_elsewhere _ _ _ _ _ _ _ (omega arith) refl
        ∙ write_lane0 _ _ _ _ (omega arith)
        ∙ write_lane0 _ _ _ _ (omega arith),
    rmw_elsewhere _ _ _ _ _ _ _ (omega arith) refl ∙ write_lane0 _ _ _ _ (omega arith),
  )

  read_live : (s : C10Phy D) → live (read_registers f bus port s) ≡ live s
  unfolding read_registers
  read_live s =
      let (kept, read) = read_each-value 20 0 s (omega arith) in
      ap₂ (λ (m n : ℕ). (m, n)) (kept 0 (vdr_pll 11)) (kept 0 (vdr_pll 12))

  read_saved : (s : C10Phy D) → saved (read_registers f bus port s) ≡ live s
  unfolding read_registers
  read_saved s =
      let (kept, read) = read_each-value 20 0 s (omega arith) in
      ap₂ (λ (m n : ℕ). (m, n))
        (ap u8 (read 11) ∙ mod-eq_of_lt (plain.content_byte 0 (vdr_pll 11) s.device))
        (ap u8 (read 12) ∙ mod-eq_of_lt (plain.content_byte 0 (vdr_pll 12) s.device))

  -- On a bus that keeps the laws IsPlainBus, the c10 class keeps the laws IsRestorable for the two
  -- registers of the quotient.
  pub c10-IsRestorable : IsRestorable (c10 f bus port) live saved
  unfolding c10 calculate_pll_clock calculate_feedback_dividers program_mmio
  c10-IsRestorable = record {
    read_saves = read_saved;
    read_keeps = read_live;
    clock_keeps = λ s. refl;
    clock_keeps_saved = λ s. refl;
    dividers_keep = λ c s. refl;
    dividers_keep_saved = λ c s. refl;
    program_keeps_saved = λ m s. refl;
    program_restores = λ s.
        let (low, high) = write_quotient-live s.pll_state_orig s.device in
        ap₂ (λ (m n : ℕ). (m, n)) low high;
  }
