-- ===== src/Framesync/Primary/Tests.antt =====
-- A primary that changes the colour in the first and in the third of three turns.
use software_vsync_modulatio.Prelude.{ℕ, ◌+◌, true, false, List, [], ◌∷◌}
use software_vsync_modulatio.Framesync.{ColorUpdate}
use software_vsync_modulatio.Framesync.Primary.{Config, Setup, Turn}

abbrev cycling : Config
cycling = record {
  interval_ms = 16;
  schedule_ahead_ms = 30;
  cycle_colors = true;
  interface_given = false;
}

abbrev all_fine : Setup
all_fine = record {
  makes_socket = true;
  group_is_valid = true;
  sets_ttl = true;
  interface_is_valid = false;
  sets_interface = false;
  renderer_works = true;
}

abbrev a_turn : ℕ → Turn
a_turn now = record {
  should_close = false;
  vblank_comes = true;
  now = now;
  realtime = 5000000 + now;
  shows = true;
  now_again = now + 30000;
}

abbrev three_turns : List Turn
three_turns = a_turn 20000 ∷ a_turn 60000 ∷ a_turn 70000 ∷ []

abbrev second_update : ColorUpdate
second_update = record {
  target_timestamp_us = 5100000;
  color = 0x0000FFFF;
  pattern_type = 0;
  sequence_num = 2;
}
