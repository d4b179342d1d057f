-- ===== src/Connection/Receive/Messages.antt =====
-- The message that a receiver returns is one that arrived.
use software_vsync_modulatio.Prelude.{Bool, true, false, none, some, List, [], ◌∷◌, All}
use software_vsync_modulatio.Connection.Receive.{
  Received, Result, got, closed, again, failed, success, failure, waiting, receive_loop,
  recvfrom_msg,
}

module _ {A : Type 0} (P : A → Type 0) where
  -- `P` holds of the message, where there is one.
  abbrev pub OfMessage : Received A → Type 0
  OfMessage (got m) = P m
  OfMessage closed = Unit
  OfMessage again = Unit
  OfMessage failed = Unit

  abbrev pub OfResult : Result A → Type 0
  OfResult (success none) = Unit
  OfResult (success (some m)) = P m
  OfResult failure = Unit
  OfResult waiting = Unit

  receive_loop-OfResult :
      (rounds : List (Bool × Received A))
      → All (λ (r : Bool × Received A). OfMessage r.1) rounds
      → OfResult (receive_loop rounds)
  unfolding receive_loop
  receive_loop-OfResult [] h = tt
  receive_loop-OfResult ((true, r) ∷ rest) h = tt
  receive_loop-OfResult ((false, got m) ∷ rest) h = h.0
  receive_loop-OfResult ((false, closed) ∷ rest) h = tt
  receive_loop-OfResult ((false, again) ∷ rest) h = receive_loop-OfResult rest h.1
  receive_loop-OfResult ((false, failed) ∷ rest) h = tt

  pub recvfrom_msg-OfResult :
      (gets_flags sets_flags : Bool) (rounds : List (Bool × Received A))
      → All (λ (r : Bool × Received A). OfMessage r.1) rounds
      → OfResult (recvfrom_msg gets_flags sets_flags rounds)
  unfolding recvfrom_msg
  recvfrom_msg-OfResult true true rounds h = receive_loop-OfResult rounds h
  recvfrom_msg-OfResult true false rounds h = tt
  recvfrom_msg-OfResult false sets_flags rounds h = tt
