-- ===== src/Cx0/Tests.antt =====
-- The theorems on the message bus at a bus that runs, of which two messages are refused.
use software_vsync_modulatio.Prelude.{
  ℕ, ◌-◌, ◌≡◌, true, false, ◌==◌, ◌&&◌, ltb, arith, if◌then◌else◌,
}
use software_vsync_modulatio.Cx0.Lanes.{intel_cx0_read, lane_mask_to_lane}
use software_vsync_modulatio.Cx0.Lanes.Log.{lane0_lem}
use software_vsync_modulatio.Cx0.Message.{cx0_write}
use software_vsync_modulatio.Cx0.Bus.{intel_cx0_read-value, cx0_write-value}
use software_vsync_modulatio.Cx0.Sample.{BusState, sample, cell, faults}
use software_vsync_modulatio.Cx0.Sample.Bus.{sample-IsMsgBus}

abbrev a_bus : BusState
a_bus = record { cells = λ l a. if a == 0xC0B then 7 else 0; answer = λ l. 0; refusals = 2 }

intel_cx0_read-value_example :
    ((intel_cx0_read (sample false) 0 1 0xC0B a_bus).0
      ≡ (if ltb (faults false a_bus) 3 then cell (lane_mask_to_lane 1) 0xC0B a_bus else 0))
    × ((k b : ℕ) → cell k b (intel_cx0_read (sample false) 0 1 0xC0B a_bus).1 ≡ cell k b a_bus)
    × (faults false (intel_cx0_read (sample false) 0 1 0xC0B a_bus).1 ≡ faults false a_bus - 3)
intel_cx0_read-value_example =
    intel_cx0_read-value (sample false) (sample-IsMsgBus false) 1 0xC0B a_bus
      (rw lane0_lem (omega arith)) (omega arith)

cx0_write-value_example :
    ((k b : ℕ)
      → cell k b (cx0_write (sample false) 0 1 0xC0B 9 true a_bus)
        ≡ (if ltb (faults false a_bus) 3 && (k == 1 && b == 0xC0B) then 9 else cell k b a_bus))
    × (faults false (cx0_write (sample false) 0 1 0xC0B 9 true a_bus) ≡ faults false a_bus - 3)
cx0_write-value_example =
    cx0_write-value (sample false) (sample-IsMsgBus false) 1 0xC0B 9 true a_bus (omega arith)
      (omega arith) (omega arith)
