-- ===== src/Secondary/Capture/Tests.antt =====
-- A capture over the network: the first try cannot be sent, the second is closed, and the third waits
-- for an answer.
use software_vsync_modulatio.Prelude.{
  ℕ, ◌≡◌, refl, true, false, some, inl, inr, List, [], ◌∷◌, replicate, arith,
}
use software_vsync_modulatio.Connection.Receive.{
  got, closed, again, success, receive_loop, recvfrom_msg,
}
use software_vsync_modulatio.Primary.{answer}
use software_vsync_modulatio.Primary.Answers.{answer_iff}
use software_vsync_modulatio.Secondary.Capture.{
  Attempt, request, capture_primary_vsync_network, capture_primary_vsync_local,
}
use software_vsync_modulatio.Secondary.Capture.Network.{capture_network-local}

abbrev four_stamps : List ℕ
four_stamps = 1000 ∷ 17000 ∷ 33000 ∷ 49000 ∷ []

abbrev sent_array : List ℕ
sent_array = 17000 ∷ 33000 ∷ 49000 ∷ replicate 97 0

abbrev unsent : Attempt
unsent = record { sends = false; gets_flags = true; sets_flags = true; rounds = [] }

abbrev hung_up : Attempt
hung_up = record {
  sends = true;
  gets_flags = true;
  sets_flags = true;
  rounds = (false, closed) ∷ [];
}

abbrev answered : Attempt
answered = record {
  sends = true;
  gets_flags = true;
  sets_flags = true;
  rounds = (false, again) ∷ ((false, got sent_array) ∷ []);
}

answer_to_three : answer (request 3) four_stamps ≡ some sent_array
unfolding request
answer_to_three =
    (answer_iff 3 (request 3) four_stamps sent_array refl).1
      (omega arith, omega arith, omega arith, refl)

capture_network-local_example :
    (va : List ℕ) × (capture_primary_vsync_network 3 true (unsent ∷ hung_up ∷ answered ∷ [])
      ≡ success (some va))
    × (capture_primary_vsync_local 3 four_stamps ≡ some va)
unfolding recvfrom_msg receive_loop
capture_network-local_example =
    capture_network-local 3 (unsent ∷ hung_up ∷ []) [] answered four_stamps sent_array
      (inl refl, (inr (refl, refl), tt)) refl refl answer_to_three
