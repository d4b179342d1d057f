-- ===== src/Lib.antt =====
-- Verification of the software genlock: the synchronisation of the vertical blanks of displays on
-- several systems, or pipes of one system, by small shifts of their PLL clocks.
--
-- The parts of the program and how they interact:
--   * the program reads its options, checks the timestamps, initialises the library and then runs as
--     a primary system or starts one thread for each pipe (swgenlock/main.cpp): Options for the list
--     of pipes, Main for the other options and Main/Flow for what follows them;
--   * a primary system collects the timestamps of its vblanks in a rolling buffer and answers the
--     requests of secondary systems (swgenlock/primary.cpp): Primary, of which
--     Primary/Serve is its start and its end with the threads of its clients, and Primary/Monitor
--     the log of what the secondaries report;
--   * both sides talk over TCP or PTP (swgenlock/connection.cpp): Connection;
--   * a secondary system captures its own timestamps and the primary's, finds the closest pair,
--     normalises the difference and decides by the pipe's statistics whether to synchronise
--     (swgenlock/secondary.cpp, swgenlock/sync_common.cpp): Secondary, Secondary/Delta, SyncCommon,
--     and Secondary/Capture for the capture over the network, which asks until it gets an answer;
--     one thread for each pipe repeats such rounds (swgenlock/main.cpp): Secondary/Runs;
--   * the library's `synchronize_vsync` and `set_pll_clock` go over the PHYs of the pipes
--     (lib/vsyncalter.cpp): Vsync;
--   * the search for the PHYs of the enabled pipes, with the constructors of the PHY classes and the
--     use of their PLLs (lib/vsyncalter.cpp `find_enabled_phys`): Discovery;
--   * the start and the end of the library and its services without a PHY (lib/vsyncalter.cpp
--     `vsync_lib_init`, `vsync_lib_uninit`, `get_vblank_interval`, `get_phy_name`): Library;
--   * the base class of the PHYs changes the clock by steps, arms a timer, waits and gives the
--     registers back (lib/phy.cpp): Phy;
--   * the concrete PHYs compute dividers and access registers (lib/combo.cpp, lib/dkl.cpp,
--     lib/dp_m_n.cpp): Combo, Dkl, DpMn, over the register access of os/mmio_interface.h: Mmio;
--   * the PHYs of type c10 and c20 (lib/c10.cpp, lib/c20.cpp) are reached by messages on a bus, which
--     are tried three times (lib/cx0_helper.cpp, lib/cx0_helper.h): PhyC10, PhyC20 and Cx0;
--   * the register access of Linux opens and closes the mapped memory (os/linux/mmio_linux.cpp,
--     os/mmio.h, lib/mmio_factory.cpp): Mmio/Linux;
--   * the timestamps of vblanks come from events of the kernel (os/linux/drm_platform_linux.cpp): Drm;
--   * a second program sets the clock of one pipe by hand (pllctl/pllctl.cpp): PllCtl;
--   * a demonstration changes the colour of several displays at once (framesync/main.cpp,
--     framesync/primary.cpp, framesync/secondary.cpp): Framesync;
--   * bit macros and printing helpers (lib/macros.h, lib/cx0_helper.h, lib/utils.cpp): Bits.
-- Prelude has shared numbers, lists, integers and bitwise lemmas; Double is the arithmetic of
-- `double` as an interface without assumptions on rounding, and Double/Micro an instance that runs.
--
-- How the code is modelled. A function has the name that it has in the source, without leading
-- underscores; those of a class stand in the module of the class, and the library's `set_pll_clock`
-- is `set_pll_clocks`. Members and globals are records that functions take and return. What comes
-- from outside is an input: captures, clocks and thread creation are the record `World`, messages
-- the record `Exchange`, the results of the calls of the two programs a record `Env` each, those of
-- libpciaccess the record `Pci`, the vblank events of each poll a function of the round, the
-- shutdown flag a function of the step, and what happens during a wait a list of `Event`s. Calls
-- with effects outside are a list. Unsigned integers are natural numbers with their wrap-around
-- written out. A register is what the interface `Mmio` reads and writes; the law `IsPlain` says
-- that the registers the code programs keep what is written to them, as memory does, and Mmio/Store
-- is a device for which it holds. `IsWindowed` says that the registers of a Dekel PHY do so while
-- its index register points the window at them, and that the first of them reads as 0 elsewhere;
-- Dkl/Window has a device for which it holds. `IsMsgBus` says how a message bus answers and how
-- many messages it refuses, `IsPlainBus` that its registers keep what is written, and `IsSram` that
-- the memory of a c20 PHY does behind its address and data registers; Cx0/Sample and PhyC20/Sample
-- are devices for which they hold. `IsRestorable` is what a concrete PHY promises to the base
-- class.
-- Loops over arrays recurse on the number of rounds left, loops on messages and events on the list
-- of what arrives. The bounds of the other loops are those of the code or enough: 64 bits of a mask
-- in `lowest_one`, 32 rounds of `log_loop`, which is shown to end, 20 digits of a number that is
-- printed, and the 1000 rounds of `adjust`, which are in the code.
--
-- Not modelled: the constants of the platform tables, logging, the printing of registers and of DRM
-- objects, the check of an IP address by a regular expression, the drawing of framesync and the
-- program vblmon. They are constant data, or almost all output.
pub mod Prelude
pub mod Bits
pub mod Double
pub mod Phy
pub mod Mmio
pub mod Cx0
pub mod DpMn
pub mod Combo
pub mod Dkl
pub mod PhyC10
pub mod PhyC20
pub mod Options
pub mod Main
pub mod Connection
pub mod Framesync
pub mod Drm
pub mod PllCtl
pub mod Vsync
pub mod Discovery
pub mod Library
pub mod SyncCommon
pub mod Secondary
pub mod Primary
pub mod Tests
