-- ===== src/PhyC20/Tests.antt =====
-- The theorems on the c20 PHY at a memory that runs.
use software_vsync_modulatio.PhyC20.Sample.{SramState}

abbrev blank_memory : SramState
blank_memory = record { latches = λ a. 0; words = λ a. 0 }
