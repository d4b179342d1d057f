-- ===== src/Drm/Tests.antt =====
-- The theorems on os/linux/drm_platform_linux.cpp at concrete events.
use software_vsync_modulatio.Prelude.{
  ℕ, ◌≡◌, refl, true, false, List, [], ◌∷◌, ◌++◌, ◌==◌, length, drop, arith, if◌then◌else◌,
}
use software_vsync_modulatio.Prelude.Int.{pos}
use software_vsync_modulatio.Double.Micro.{micro}
use software_vsync_modulatio.Mmio.Store.{store}
use software_vsync_modulatio.Drm.{Poll, silent, handles, Setup, os_get_vsync}
use software_vsync_modulatio.Drm.Stored.{timestamps, fails, os_get_vsync-stored}

abbrev all_well : Setup
all_well = record { device_given = true; array_given = true; opens = true; first_request = true }

-- The first poll times out.
abbrev late : ℕ → Poll
late i =
    if i == 0
    then silent
    else handles (record { sec = 7; usec = i; real_sec = 0; real_nsec = 0 } ∷ [])

abbrev three_slots : List ℕ
three_slots = 0 ∷ (0 ∷ (0 ∷ []))

os_get_vsync-stored_example :
    ((os_get_vsync micro store all_well late three_slots (pos 3) 1 false (λ a. 0)).0
      ≡ (if fails late 3 0 then pos 1 else pos 0))
    × ((os_get_vsync micro store all_well late three_slots (pos 3) 1 false (λ a. 0)).1
        ≡ timestamps micro store all_well late three_slots 3 1 false (λ a. 0)
          ++ drop
              (length (timestamps micro store all_well late three_slots 3 1 false (λ a. 0)))
              three_slots)
os_get_vsync-stored_example =
    os_get_vsync-stored micro store all_well late three_slots 3 1 false (λ a. 0) refl (omega arith)
      (omega arith)
