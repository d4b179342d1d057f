-- ===== src/Connection/Receive.antt =====
-- swgenlock/connection.cpp: sending and receiving one message.
pub mod Messages
use software_vsync_modulatio.Prelude.{
  ℕ, ◌≡◌, refl, Bool, true, false, not, Option, none, some, List, [], ◌∷◌, ◌||◌, if◌then◌else◌,
}

-- What a call of `recvfrom` gives: a message, a closed connection, nothing so far, or an error.
pub data Received (A : Type 0) : Type 0 where
  got : A → Received A
  closed again failed : Received A

-- The result where the loop ends, with the message if the caller's buffer has one.
pub data Result (A : Type 0) : Type 0 where
  success : Option A → Result A
  failure waiting : Result A

module _ {A : Type 0} where
  -- The loop; each round has the flag `client_done` and the answer of `recvfrom`.
  unfoldable pub receive_loop : List (Bool × Received A) → Result A
  receive_loop [] = waiting
  receive_loop ((true, r) ∷ rest) = success none
  receive_loop ((false, got m) ∷ rest) = success (some m)
  receive_loop ((false, closed) ∷ rest) = failure
  receive_loop ((false, again) ∷ rest) = receive_loop rest
  receive_loop ((false, failed) ∷ rest) = failure

  -- `recvfrom_msg`, with whether the two calls of `fcntl` work.
  unfoldable pub recvfrom_msg : Bool → Bool → List (Bool × Received A) → Result A
  unfolding receive_loop
  recvfrom_msg gets_flags sets_flags rounds =
      if not gets_flags || not sets_flags then failure else receive_loop rounds
