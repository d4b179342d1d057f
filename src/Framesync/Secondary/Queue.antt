-- ===== src/Framesync/Secondary/Queue.antt =====
-- The updates are shown in the order in which they arrive.
use software_vsync_modulatio.Prelude.{ℕ, ◌≡◌, Bool, true, false, List, [], ◌∷◌, ◌++◌, map}
use software_vsync_modulatio.Framesync.{
  ColorUpdate, Call, open_socket, close_socket, start_thread, join_thread, cleanup_renderer,
  broadcast, sleep_until_realtime_us, present,
}
use software_vsync_modulatio.Framesync.Secondary.{
  Step, State, timeout, select_fails, receive_fails, other_type, update, receives, shows, Shown,
}

-- The updates that the thread receives, until its `select` fails.
unfoldable pub arrived : Bool → List Step → List ColorUpdate
arrived on [] = []
arrived on (shows t ∷ rest) = arrived on rest
arrived on (receives timeout ∷ rest) = arrived on rest
arrived on (receives select_fails ∷ rest) = arrived false rest
arrived on (receives receive_fails ∷ rest) = arrived on rest
arrived on (receives other_type ∷ rest) = arrived on rest
arrived true (receives (update m) ∷ rest) = m ∷ arrived true rest
arrived false (receives (update m) ∷ rest) = arrived false rest

pub presented : List Call → List ℕ
presented [] = []
presented (open_socket ∷ cs) = presented cs
presented (close_socket ∷ cs) = presented cs
presented (start_thread ∷ cs) = presented cs
presented (join_thread ∷ cs) = presented cs
presented (cleanup_renderer ∷ cs) = presented cs
presented (broadcast m ∷ cs) = presented cs
presented (sleep_until_realtime_us t ∷ cs) = presented cs
presented (present color ∷ cs) = color ∷ presented cs

-- In every turn the window stays open and the wait for a vblank works.
unfoldable pub KeepsGoing : List Step → Type 0
KeepsGoing [] = Unit
KeepsGoing (receives a ∷ rest) = KeepsGoing rest
KeepsGoing (shows t ∷ rest) = (t.should_close ≡ false) × (t.vblank_comes ≡ true) × KeepsGoing rest

-- What the queue and the steps to come hold, in order.
abbrev expected : List Step → State → List ColorUpdate
expected steps s = s.pending ++ arrived s.receiving steps

abbrev InOrder : List Step → State → Shown → Type 0
InOrder steps s r =
    (r.taken ++ r.left.pending ≡ expected steps s)
    × (presented r.calls ≡ map (λ (m : ColorUpdate). m.color) r.taken)
