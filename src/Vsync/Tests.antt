-- ===== src/Vsync/Tests.antt =====
-- The theorems on the PHYs and the library's entry points at concrete inputs: a DP M and N PHY on
-- a device whose registers are a function.
use software_vsync_modulatio.Prelude.{
  ℕ, ◌<◌, ◌≡◌, refl, Bool, true, false, none, some, List, [], ◌∷◌, ◌++◌, ◌==◌, length,
  if◌then◌else◌,
}
use software_vsync_modulatio.Prelude.Int.{ℤ, pos, pos_part}
use software_vsync_modulatio.Double.Micro.{micro}
use software_vsync_modulatio.Mmio.{Reg}
use software_vsync_modulatio.Mmio.Store.{store, content, store-IsPlain}
use software_vsync_modulatio.Phy.{
  PhyOps, Phys, Event, timer_expires, apply_frequency, step_loop, percent_diff, large_steps,
  steps_of, step_size_of, set_pll_clock_from, chosen_shift, calc_steps_to_sync, new_pll_clock,
  prepared, commit_clock, program_phy, reset_phy_regs,
}
use software_vsync_modulatio.Phy.Restore.{IsRestorable, reset_phy_regs-program_phy}
use software_vsync_modulatio.Phy.Stepping.{set_pll_clock_from-drive, drive, IsRamp}
use software_vsync_modulatio.DpMn.{
  DpMnPhy, dp_m_n, live, saved, dp_m_n-IsRestorable, calculate_pll_clock,
  calculate_feedback_dividers, read_registers, program_mmio,
}
use software_vsync_modulatio.Vsync.{
  VsyncLib, Request, is_out_of_range, synchronize_vsync, synchronize_each, synchronize_one, program,
  selects,
}
use software_vsync_modulatio.Vsync.Restore.{registers, synchronize_vsync-restores}
use software_vsync_modulatio.Vsync.Pipes.{SameElsewhere, synchronize_vsync-elsewhere}

abbrev link : PhyOps ℤ (DpMnPhy (ℕ → ℕ))
link = dp_m_n micro store 0x60040 0x60044

abbrev link_live : DpMnPhy (ℕ → ℕ) → ℕ × ℕ
link_live = live micro store 0x60040 0x60044 content

abbrev link_saved : DpMnPhy (ℕ → ℕ) → ℕ × ℕ
link_saved = saved micro store 0x60040 0x60044

link_laws : IsRestorable link link_live link_saved
link_laws = dp_m_n-IsRestorable micro store 0x60040 0x60044 content store-IsPlain refl

abbrev empty_reg : Reg
empty_reg = record { orig_val = 0; mod_val = 0 }

abbrev a_phy : ℤ → Phys ℤ (DpMnPhy (ℕ → ℕ))
a_phy p = record {
  done = true;
  pipe = p;
  phy_type = pos 2;
  has_ds = true;
  pll_freq_orig = pos 0;
  pll_freq_mod = pos 0;
  used_shift = pos 0;
  wait_between_steps = pos 0;
  timer = none;
  hw = record {
    mreg = empty_reg;
    nreg = empty_reg;
    device = λ a. if a == 0x60040 then 500000 else 524288;
  };
}

abbrev never : ℕ → Bool
never i = false

dp_m_n-IsRestorable_example :
    IsRestorable
      (dp_m_n micro store 0x60040 0x60044)
      (live micro store 0x60040 0x60044 content)
      (saved micro store 0x60040 0x60044)
dp_m_n-IsRestorable_example =
    dp_m_n-IsRestorable micro store 0x60040 0x60044 content store-IsPlain refl

reset_phy_regs-program_phy_example :
    link_live
      (reset_phy_regs micro link never
        (program_phy micro link never
          (pos 5000000)
          (pos 10000)
          (pos 0)
          (pos 1000)
          (pos 50)
          true
          true
          (a_phy (pos 0))).1).hw
    ≡ link_live (a_phy (pos 0)).hw
reset_phy_regs-program_phy_example =
    reset_phy_regs-program_phy micro link link_laws never never (pos 5000000) (pos 10000) (pos 0)
      (pos 1000) (pos 50) true true (a_phy (pos 0)) refl

set_pll_clock_from-drive_example :
    (cs : List ℤ) × (length cs
      ≡ pos_part (steps_of micro link (pos 500000000000) (pos 501000000000) (pos 100000)))
    × (set_pll_clock_from micro link never
          (pos 500000000000)
          (pos 501000000000)
          (pos 100000)
          true
          (a_phy (pos 0)).hw
        ≡ drive micro link true cs (a_phy (pos 0)).hw)
    × (0 < length cs
        → (before : List ℤ) × (cs ≡ before ++ (pos 501000000000 ∷ []))
          × IsRamp micro link
              (step_size_of micro link (pos 500000000000) (pos 501000000000) (pos 100000))
              (pos 500000000000)
              before)
unfolding micro
set_pll_clock_from-drive_example =
    set_pll_clock_from-drive micro link never (pos 500000000000) (pos 501000000000) (pos 100000)
      true (a_phy (pos 0)).hw (λ j. refl) refl refl refl

programmed :
    (program_phy micro link never
      (pos 5000000)
      (pos 10000)
      (pos 0)
      (pos 1000)
      (pos 50)
      true
      true
      (a_phy (pos 0))).0
    ≡ 0
unfolding micro dp_m_n calculate_pll_clock calculate_feedback_dividers read_registers program_mmio
    apply_frequency step_loop percent_diff large_steps steps_of step_size_of set_pll_clock_from
    chosen_shift calc_steps_to_sync new_pll_clock prepared commit_clock program_phy
programmed = refl

abbrev a_lib : VsyncLib ℤ (DpMnPhy (ℕ → ℕ))
a_lib = record { is_init = true; phy_enabled_list = some (a_phy (pos 0) ∷ a_phy (pos 1) ∷ []) }

abbrev a_request : Request ℤ
a_request = record {
  time_diff = pos 5000000;
  shift = pos 10000;
  shift2 = pos 0;
  step_threshold = pos 1000;
  wait_between_steps = pos 50;
  reset = true;
  commit = true;
}

abbrev unstopped : ℕ → ℕ → Bool
unstopped i = never

abbrev timers : ℕ → List Event
timers i = timer_expires ∷ []

synchronized : (synchronize_vsync micro link unstopped timers a_request (pos 0) a_lib).0 ≡ 0
unfolding synchronize_vsync synchronize_each synchronize_one program selects is_out_of_range micro
    dp_m_n calculate_pll_clock calculate_feedback_dividers read_registers program_mmio
    apply_frequency step_loop percent_diff large_steps steps_of step_size_of set_pll_clock_from
    chosen_shift calc_steps_to_sync new_pll_clock prepared commit_clock program_phy
synchronized = refl

synchronize_vsync-restores_example :
    registers link_live (synchronize_vsync micro link unstopped timers a_request (pos 0) a_lib).1
    ≡ registers link_live a_lib
synchronize_vsync-restores_example =
    synchronize_vsync-restores micro link link_laws unstopped timers a_request (pos 0) a_lib refl
      refl (λ j. tt) synchronized

synchronize_vsync-elsewhere_example :
    (qs : List (Phys ℤ (DpMnPhy (ℕ → ℕ)))) × ((synchronize_vsync micro link unstopped timers
        a_request
        (pos 0)
        a_lib).1.phy_enabled_list
      ≡ some qs)
    × SameElsewhere (pos 0) (a_phy (pos 0) ∷ a_phy (pos 1) ∷ []) qs
synchronize_vsync-elsewhere_example =
    synchronize_vsync-elsewhere micro link unstopped timers a_request (pos 0) a_lib
      (a_phy (pos 0) ∷ a_phy (pos 1) ∷ []) refl
