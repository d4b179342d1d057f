-- ===== src/Secondary/Capture.antt =====
-- swgenlock/secondary.cpp: the primary's timestamps, over the network and from the local collector.
pub mod Network
mod Tests
use software_vsync_modulatio.Prelude.{
  ℕ, suc, ◌-◌, ◌≤◌, ◌≡◌, refl, sym, ap, ◌∙◌, Bool, true, false, Option, none, some, List, [], ◌∷◌,
  ◌++◌, length, drop, take, replicate, length-drop, Bool-cases, Option-cases, inl, inr, arith,
  if◌then◌else◌,
}
use software_vsync_modulatio.Prelude.Int.{ℤ, pos}
use software_vsync_modulatio.Connection.Receive.{
  Received, Result, got, closed, again, failed, success, failure, waiting, receive_loop,
  recvfrom_msg,
}
use software_vsync_modulatio.Primary.{Request, ack, answer, get_last_vsyncs, fill, max_timestamps}

-- One turn of the loop: whether `send_msg` works, the two calls of `fcntl`, and the rounds of
-- `recvfrom_msg`, each with the flag `client_done`. A message is its array of 100 timestamps.
pub record Attempt : Type 0 where
  pub sends : Bool
  pub gets_flags : Bool
  pub sets_flags : Bool
  pub rounds : List (Bool × Received (List ℕ))

-- What is sent.
pub request : ℕ → Request
request timestamps = record { header = ack; vblank_count = pos timestamps }

-- `while (ret)` after a turn: a failure asks again.
pub or_later : Result (List ℕ) → Result (List ℕ) → Result (List ℕ)
or_later (success m) later = success m
or_later failure later = later
or_later waiting later = waiting

-- The loop until a message is sent and received.
pub ask : List Attempt → Result (List ℕ)
unfolding or_later
ask [] = waiting
ask (a ∷ rest) =
    let later = ask rest in
    if a.sends then or_later (recvfrom_msg a.gets_flags a.sets_flags a.rounds) later else later

-- The copy of the timestamps; without a message it is made from memory that was never set.
pub copied : ℕ → Result (List ℕ) → Result (List ℕ)
copied timestamps (success none) = success none
copied timestamps (success (some va)) = success (some (take timestamps va))
copied timestamps failure = failure
copied timestamps waiting = waiting

-- `capture_primary_vsync_network`, with the result of `init_client`.
pub capture_primary_vsync_network : ℕ → Bool → List Attempt → Result (List ℕ)
unfolding ask copied
capture_primary_vsync_network timestamps connected attempts =
    if connected then copied timestamps (ask attempts) else failure

-- `capture_primary_vsync_local`, from the buffer of the collector.
pub capture_primary_vsync_local : ℕ → List ℕ → Option (List ℕ)
capture_primary_vsync_local timestamps buffer = get_last_vsyncs buffer timestamps
