-- ===== src/Cx0/Bus.antt =====
-- What the PHYs are promised of the bus: its registers are kept, and read and written by lane masks.
use software_vsync_modulatio.Prelude.{
  ℕ, zero, suc, ◌-◌, ◌^◌, ◌<◌, ◌≡◌, refl, ap₂, ◌∙◌, lt→ltb, Bool, true, false, inl, inr, Bool-cases,
  bit_and, bit_or, ◌==◌, ◌&&◌, ltb, arith, if◌then◌else◌,
}
use software_vsync_modulatio.Bits.{u8}
use software_vsync_modulatio.Mmio.{Mmio}
use software_vsync_modulatio.Cx0.Message.{cx0_read, cx0_write, cx0_rmw}
use software_vsync_modulatio.Cx0.Device.{IsMsgBus}
use software_vsync_modulatio.Cx0.Lanes.{
  Cx0Bus, cx0_bus, lane_mask_to_lane, in_mask, for_each_lane, intel_cx0_read, intel_cx0_write,
  intel_cx0_rmw,
}
use software_vsync_modulatio.Cx0.Reading.{read_tries-value, read_tries-kept}
use software_vsync_modulatio.Cx0.Writing.{write_tries-Written}

-- The byte that a read-modify-write leaves.
abbrev pub merge_byte : ℕ → ℕ → ℕ → ℕ
merge_byte old clear new = u8 (bit_or (bit_and old (255 - clear)) new)

pub record IsPlainBus {D : Type 0} (bus : Cx0Bus D) (port : ℕ) (content : ℕ → ℕ → D → ℕ)
    : Type 0 where
  pub content_byte : (l a : ℕ) (d : D) → content l a d < 2 ^ 8
  pub read_value :
      (lane_mask a : ℕ) (d : D)
      → lane_mask_to_lane lane_mask < 2
      → a < 2 ^ 12
      → (bus.bus_read port lane_mask a d).0 ≡ content (lane_mask_to_lane lane_mask) a d
  pub read_keeps :
      (lane_mask a k b : ℕ) (d : D)
      → lane_mask_to_lane lane_mask < 2
      → a < 2 ^ 12
      → content k b (bus.bus_read port lane_mask a d).1 ≡ content k b d
  pub write_value :
      (lane_mask a v k b : ℕ) (c : Bool) (d : D)
      → a < 2 ^ 12
      → v < 2 ^ 8
      → k < 2
      → content k b (bus.bus_write port lane_mask a v c d)
        ≡ (if in_mask lane_mask k && b == a then v else content k b d)
  pub rmw_value :
      (lane_mask a clear new k b : ℕ) (c : Bool) (d : D)
      → a < 2 ^ 12
      → k < 2
      → content k b (bus.bus_rmw port lane_mask a clear new c d) ≡ (
          if in_mask lane_mask k && b == a
          then merge_byte (content k b d) clear new
          else content k b d)

module _ {D : Type 0} (mmio : Mmio D) {port : ℕ} {content : ℕ → ℕ → D → ℕ} {status : ℕ → D → ℕ}
    {faults : D → ℕ} (law : IsMsgBus mmio port content status faults) where
  cx0_read-value :
      (l a : ℕ) (d : D)
      → l < 2
      → a < 2 ^ 12
      → ((cx0_read mmio port l a d).0 ≡ (if ltb (faults d) 3 then content l a d else 0))
        × ((k b : ℕ) → content k b (cx0_read mmio port l a d).1 ≡ content k b d)
        × (faults (cx0_read mmio port l a d).1 ≡ faults d - 3)
  unfolding cx0_read
  cx0_read-value l a d lane small =
      let (kept, f) = read_tries-kept mmio law l lane 3 a small d in
      (read_tries-value mmio law l lane 3 a small d, kept, f)

  -- A read by a lane mask, on a bus that keeps the laws IsMsgBus and of an address of 12 bits: the
  -- value is that of the register, or 0 when the next three messages are refused; no register
  -- changes, and each refused try uses up one refusal, three at most.
  pub intel_cx0_read-value :
      (lane_mask a : ℕ) (d : D)
      → lane_mask_to_lane lane_mask < 2
      → a < 2 ^ 12
      → ((intel_cx0_read mmio port lane_mask a d).0
          ≡ (if ltb (faults d) 3 then content (lane_mask_to_lane lane_mask) a d else 0))
        × ((k b : ℕ) → content k b (intel_cx0_read mmio port lane_mask a d).1 ≡ content k b d)
        × (faults (intel_cx0_read mmio port lane_mask a d).1 ≡ faults d - 3)
  unfolding intel_cx0_read
  intel_cx0_read-value lane_mask a d lane small =
      cx0_read-value (lane_mask_to_lane lane_mask) a d lane small

  -- A write to one lane, on a bus that keeps the laws IsMsgBus, of a byte to an address of 12 bits:
  -- the register of that lane gets the value if fewer than three messages are refused next, and
  -- else stays as it was; no other register changes, and three refusals at most are used up.
  pub cx0_write-value :
      (l a v : ℕ) (c : Bool) (d : D)
      → l < 2
      → a < 2 ^ 12
      → v < 2 ^ 8
      → ((k b : ℕ)
          → content k b (cx0_write mmio port l a v c d)
            ≡ (if ltb (faults d) 3 && (k == l && b == a) then v else content k b d))
        × (faults (cx0_write mmio port l a v c d) ≡ faults d - 3)
  unfolding cx0_write
  cx0_write-value l a v c d lane small byte =
      write_tries-Written mmio law l lane a v c small byte 3 d

  -- What an operation on one lane does to the register `a`: `g`, and no other is changed.
  Sets : (D → D) → (ℕ → ℕ) → ℕ → ℕ → D → Type 0
  Sets op g l a d =
      ((k b : ℕ)
        → content k b (op d) ≡ (if k == l && b == a then g (content k b d) else content k b d))
      × (faults (op d) ≡ 0)

  at_spot : (l a k b : ℕ) (d : D) → (k == l && b == a) ≡ true → content k b d ≡ content l a d
  at_spot l a k b d h = ap₂ (λ (m n : ℕ). content m n d) (ground arith) (ground arith)

  cx0_rmw-Sets :
      (l a clear new : ℕ) (c : Bool) (d : D)
      → l < 2
      → a < 2 ^ 12
      → faults d < 3
      → Sets (λ s. cx0_rmw mmio port l a clear new c s) (λ n. merge_byte n clear new) l a d
  unfolding Sets cx0_rmw
  cx0_rmw-Sets l a clear new c d lane small few =
      let (v, kept, f) = cx0_read-value l a d lane small in
      let old : (cx0_read mmio port l a d).0 ≡ content l a d = v ∙ rw (lt→ltb _ _ few) refl in
      let val : ℕ = merge_byte (content l a d) clear new in
      let (w, f') =
        cx0_write-value l a val c (cx0_read mmio port l a d).1 lane small (omega arith) in
      elim (Bool-cases (val == content l a d)) [
        | inl e ↦ (
          λ k b. rw (old, e) (kept k b ∙ ground (arith, at_spot l a k b d)),
          rw (old, e) (omega (arith, f)),
        )
        | inr e ↦ (
          λ k b. rw (old, e) (w k b ∙ ground (arith, f, kept k b, at_spot l a k b d)),
          rw (old, e) (omega (arith, f, f')),
        )
      ]

  cx0_write-Sets :
      (l a v : ℕ) (c : Bool) (d : D)
      → l < 2
      → a < 2 ^ 12
      → v < 2 ^ 8
      → faults d < 3
      → Sets (λ s. cx0_write mmio port l a v c s) (λ n. v) l a d
  unfolding Sets
  cx0_write-Sets l a v c d lane small byte few =
      let (w, f) = cx0_write-value l a v c d lane small byte in
      (λ k b. w k b ∙ rw (lt→ltb _ _ few) refl, omega (arith, f))

  -- One round of the loop over the lanes of a mask.
  round :
      (a : ℕ) (g : ℕ → ℕ) (body : ℕ → D → D)
      → ((l : ℕ) (s : D) → l < 2 → faults s < 3 → Sets (body l) g l a s)
      → (t : Bool) (l k b : ℕ) (s : D) → l < 2
      → faults s < 3
      → (content k b (if t then body l s else s)
          ≡ (if t && (k == l && b == a) then g (content k b s) else content k b s))
        × (faults (if t then body l s else s) < 3)
  unfolding Sets
  round a g body each true l k b s lane few =
      let (w, f) = each l s lane few in (w k b, omega (arith, f))
  round a g body each false l k b s lane few = (refl, few)

  in_mask_below :
      (lane_mask k : ℕ)
      → k < 2
      → in_mask lane_mask k ≡ (if k == 0 then in_mask lane_mask 0 else in_mask lane_mask 1)
  in_mask_below lane_mask zero h = refl
  in_mask_below lane_mask (suc zero) h = refl
  in_mask_below lane_mask (suc (suc k)) h = absurd (omega arith)

  for_each_lane-value :
      (lane_mask a : ℕ) (g : ℕ → ℕ) (body : ℕ → D → D)
      → ((l : ℕ) (s : D) → l < 2 → faults s < 3 → Sets (body l) g l a s)
      → (k b : ℕ) (d : D) → k < 2
      → faults d < 3
      → content k b (for_each_lane lane_mask body d)
        ≡ (if in_mask lane_mask k && b == a then g (content k b d) else content k b d)
  unfolding for_each_lane
  for_each_lane-value lane_mask a g body each k b d small few =
      let (w, f) = round a g body each (in_mask lane_mask 0) 0 k b d (omega arith) few in
      let (w', f') =
        round a g body each (in_mask lane_mask 1) 1 k b
          (if in_mask lane_mask 0 then body 0 d else d) (omega arith) f in
      w' ∙ rw (w, in_mask_below lane_mask k small) (ground arith)

  -- A write by a lane mask sets the registers of the lanes in it.
  pub intel_cx0_write-value :
      (lane_mask a v k b : ℕ) (c : Bool) (d : D)
      → a < 2 ^ 12
      → v < 2 ^ 8
      → k < 2
      → faults d < 3
      → content k b (intel_cx0_write mmio port lane_mask a v c d)
        ≡ (if in_mask lane_mask k && b == a then v else content k b d)
  unfolding intel_cx0_write
  intel_cx0_write-value lane_mask a v k b c d small byte lane few =
      for_each_lane-value lane_mask a (λ n. v) _
        (λ l s h few'. cx0_write-Sets l a v c s h small byte few') k b d lane few

  -- A read-modify-write by a lane mask, on a bus that keeps the laws IsMsgBus, at an address of 12
  -- bits and with fewer than three refusals to come: the register of each lane in the mask gets the
  -- byte with the given bits cleared and then set, and every other register is kept.
  pub intel_cx0_rmw-value :
      (lane_mask a clear new k b : ℕ) (c : Bool) (d : D)
      → a < 2 ^ 12
      → k < 2
      → faults d < 3
      → content k b (intel_cx0_rmw mmio port lane_mask a clear new c d) ≡ (
          if in_mask lane_mask k && b == a
          then merge_byte (content k b d) clear new
          else content k b d)
  unfolding intel_cx0_rmw
  intel_cx0_rmw-value lane_mask a clear new k b c d small lane few =
      for_each_lane-value lane_mask a (λ n. merge_byte n clear new) _
        (λ l s h few'. cx0_rmw-Sets l a clear new c s h small few') k b d lane few

  -- A message bus that refuses nothing.
  pub cx0_bus-IsPlainBus : ((d : D) → faults d ≡ 0) → IsPlainBus (cx0_bus mmio) port content
  unfolding cx0_bus
  cx0_bus-IsPlainBus none_fails = record {
    content_byte = law.content_byte;
    read_value =
        λ m a d lane small. (intel_cx0_read-value m a d lane small).0 ∙ rw (none_fails d) refl;
    read_keeps = λ m a k b d lane small. (intel_cx0_read-value m a d lane small).1 k b;
    write_value = λ m a v k b c d small byte lane.
        intel_cx0_write-value m a v k b c d small byte lane (omega (arith, none_fails d));
    rmw_value = λ m a clear new k b c d small lane.
        intel_cx0_rmw-value m a clear new k b c d small lane (omega (arith, none_fails d));
  }
