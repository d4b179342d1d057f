-- ===== src/PhyC10/Tests.antt =====
-- The theorems on the c10 PHY at a message bus that runs.
use software_vsync_modulatio.Prelude.{refl, true}
use software_vsync_modulatio.Double.Micro.{micro}
use software_vsync_modulatio.Phy.Restore.{IsRestorable}
use software_vsync_modulatio.Cx0.Lanes.{Cx0Bus, cx0_bus}
use software_vsync_modulatio.Cx0.Bus.{IsPlainBus, cx0_bus-IsPlainBus}
use software_vsync_modulatio.Cx0.Sample.{BusState, sample, cell, faults}
use software_vsync_modulatio.Cx0.Sample.Bus.{sample-IsMsgBus}
use software_vsync_modulatio.PhyC10.{c10}
use software_vsync_modulatio.PhyC10.Restore.{live, saved, c10-IsRestorable}

abbrev steady_bus : Cx0Bus BusState
steady_bus = cx0_bus (sample true)

steady_bus-IsPlainBus : IsPlainBus steady_bus 0 cell
unfolding faults
steady_bus-IsPlainBus = cx0_bus-IsPlainBus (sample true) (sample-IsMsgBus true) (λ d. refl)

c10-IsRestorable_example :
    IsRestorable
      (c10 micro steady_bus 0)
      (live micro steady_bus 0 steady_bus-IsPlainBus)
      (saved micro steady_bus 0 steady_bus-IsPlainBus)
c10-IsRestorable_example = c10-IsRestorable micro steady_bus 0 steady_bus-IsPlainBus
