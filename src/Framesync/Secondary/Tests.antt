-- ===== src/Framesync/Secondary/Tests.antt =====
-- A secondary that receives two updates, shows the first, and receives a third.
use software_vsync_modulatio.Prelude.{ℕ, true, false, List, [], ◌∷◌}
use software_vsync_modulatio.Framesync.{ColorUpdate}
use software_vsync_modulatio.Framesync.Secondary.{Step, Setup, receives, shows, update, timeout}

abbrev all_fine : Setup
all_fine = record {
  makes_socket = true;
  binds = true;
  group_is_valid = true;
  interface_given = false;
  interface_is_valid = false;
  joins_group = true;
  renderer_works = true;
}

abbrev numbered : ℕ → ColorUpdate
numbered n = record { target_timestamp_us = 5000000; color = n; pattern_type = 0; sequence_num = n }

abbrev some_steps : List Step
some_steps =
    receives (update (numbered 1))
    ∷ receives (update (numbered 2))
    ∷ receives timeout
    ∷ shows (record { should_close = false; now = 4990000; vblank_comes = true })
    ∷ receives (update (numbered 3))
    ∷ []
