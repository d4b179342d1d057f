-- ===== src/Framesync/Primary/Numbered.antt =====
-- The updates that the primary broadcasts are numbered, and their colours go round.
use software_vsync_modulatio.Prelude.{ℕ, ◌+◌, ◌%◌, ◌^◌, ◌≡◌, List, [], ◌∷◌}
use software_vsync_modulatio.Framesync.{
  ColorUpdate, Call, open_socket, close_socket, start_thread, join_thread, cleanup_renderer,
  broadcast, sleep_until_realtime_us, present, demo_color, demo_num_colors,
}

unfoldable pub broadcasts : List Call → List ColorUpdate
broadcasts [] = []
broadcasts (open_socket ∷ cs) = broadcasts cs
broadcasts (close_socket ∷ cs) = broadcasts cs
broadcasts (start_thread ∷ cs) = broadcasts cs
broadcasts (join_thread ∷ cs) = broadcasts cs
broadcasts (cleanup_renderer ∷ cs) = broadcasts cs
broadcasts (broadcast m ∷ cs) = m ∷ broadcasts cs
broadcasts (sleep_until_realtime_us t ∷ cs) = broadcasts cs
broadcasts (present color ∷ cs) = broadcasts cs

-- Numbers and colours from the `i`-th update on.
IsNumbered : ℕ → List ColorUpdate → Type 0
IsNumbered i [] = Unit
IsNumbered i (m ∷ ms) =
    (m.sequence_num ≡ (i + 1) % 2 ^ 64)
    × (m.color ≡ demo_color ((i + 1) % demo_num_colors))
    × IsNumbered (i + 1) ms
