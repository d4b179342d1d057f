-- ===== src/Cx0.antt =====
-- lib/cx0_helper.cpp and lib/cx0_helper.h: the registers of the CX0 PHYs, which are reached by
-- messages on a bus of each port and lane.
pub mod Registers
pub mod Access
pub mod Message
pub mod Lanes
pub mod Device
pub mod Reading
pub mod Writing
pub mod Words
pub mod Sample
pub mod Bus
pub mod Waits
mod Tests
