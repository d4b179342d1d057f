-- ===== src/Secondary/Capture/Network.antt =====
-- What is captured over the network is what the primary's collector has.
use software_vsync_modulatio.Prelude.{
  ℕ, zero, suc, ◌-◌, ◌≡◌, refl, sym, ap, ◌∙◌, Bool, true, false, none, some, List, [], ◌∷◌, ◌++◌,
  All, length, drop, take, replicate, length-drop, Bool-cases, inl, inr, ◌⊎◌, arith,
}
use software_vsync_modulatio.Connection.Receive.{
  Received, Result, success, failure, waiting, recvfrom_msg,
}
use software_vsync_modulatio.Connection.Receive.Messages.{
  OfMessage, OfResult, recvfrom_msg-OfResult,
}
use software_vsync_modulatio.Primary.{answer, max_timestamps}
use software_vsync_modulatio.Primary.Answers.{answer_iff, get_last_vsyncs-enough}
use software_vsync_modulatio.Secondary.Capture.{
  Attempt, request, or_later, ask, copied, capture_primary_vsync_network,
  capture_primary_vsync_local,
}

take-prefix : (n : ℕ) (xs ys : List ℕ) → length xs ≡ n → take n (xs ++ ys) ≡ xs
take-prefix zero [] ys h = refl
take-prefix zero (x ∷ xs) ys h = absurd (omega arith)
take-prefix (suc n) [] ys h = absurd (omega arith)
take-prefix (suc n) (x ∷ xs) ys h = ap (λ (zs : List ℕ). x ∷ zs) (take-prefix n xs ys (omega arith))

-- The array of an answer begins with what a local capture would have given.
take-answer :
    (n : ℕ) (buffer m : List ℕ)
    → answer (request n) buffer ≡ some m
    → capture_primary_vsync_local n buffer ≡ some (take n m)
unfolding capture_primary_vsync_local request
take-answer n buffer m e =
    let (least, most, enough, made) = (answer_iff n (request n) buffer m refl).0 e in
    get_last_vsyncs-enough buffer n enough
    ∙ ap some (
        sym (
          ap (take n) (sym made)
          ∙ take-prefix n (drop (length buffer - n) buffer) (replicate (max_timestamps - n) 0)
              (omega (arith, length-drop (length buffer - n) buffer))))

module _ (n : ℕ) where
  -- The array is the primary's answer, by the buffer at that time.
  abbrev pub IsAnswer : List ℕ → Type 0
  IsAnswer m = (buffer : List ℕ) × (answer (request n) buffer ≡ some m)

  abbrev pub IsServed : Attempt → Type 0
  IsServed a = All (λ (r : Bool × Received (List ℕ)). OfMessage IsAnswer r.1) a.rounds

  or_later-IsAnswer :
      (now later : Result (List ℕ))
      → OfResult IsAnswer now
      → OfResult IsAnswer later
      → OfResult IsAnswer (or_later now later)
  unfolding or_later
  or_later-IsAnswer (success m) later h k = h
  or_later-IsAnswer failure later h k = k
  or_later-IsAnswer waiting later h k = tt

  ask-IsAnswer :
      (attempts : List Attempt) → All IsServed attempts → OfResult IsAnswer (ask attempts)
  unfolding ask
  ask-IsAnswer [] h = tt
  ask-IsAnswer (a ∷ rest) (h, t) =
      let now = recvfrom_msg-OfResult IsAnswer a.gets_flags a.sets_flags a.rounds h in
      elim (Bool-cases a.sends) [
        | inl sent ↦ rw sent (or_later-IsAnswer _ (ask rest) now (ask-IsAnswer rest t))
        | inr lost ↦ rw lost (ask-IsAnswer rest t)
      ]

  -- The timestamps of a local capture, at some time.
  abbrev pub IsLocal : List ℕ → Type 0
  IsLocal va = (buffer : List ℕ) × (capture_primary_vsync_local n buffer ≡ some va)

  copied-IsLocal : (r : Result (List ℕ)) → OfResult IsAnswer r → OfResult IsLocal (copied n r)
  unfolding copied
  copied-IsLocal (success none) h = tt
  copied-IsLocal (success (some m)) (buffer, e) = (buffer, take-answer n buffer m e)
  copied-IsLocal failure h = tt
  copied-IsLocal waiting h = tt

  -- If every message that arrives is the answer of a primary to the request, then the timestamps
  -- that are captured over the network, where it comes to that, are those that a local capture
  -- gives from the buffer of a primary.
  pub capture_network-IsLocal :
      (connected : Bool) (attempts : List Attempt)
      → All IsServed attempts
      → OfResult IsLocal (capture_primary_vsync_network n connected attempts)
  unfolding capture_primary_vsync_network
  capture_network-IsLocal true attempts h = copied-IsLocal (ask attempts) (ask-IsAnswer attempts h)
  capture_network-IsLocal false attempts h = tt

  -- A turn after which the loop asks again.
  abbrev pub Fails : Attempt → Type 0
  Fails a =
      (a.sends ≡ false)
      ⊎ ((a.sends ≡ true) × (recvfrom_msg a.gets_flags a.sets_flags a.rounds ≡ failure))

  ask-again : (tries rest : List Attempt) → All Fails tries → ask (tries ++ rest) ≡ ask rest
  unfolding ask or_later
  ask-again [] rest h = refl
  ask-again (a ∷ tries) rest (inl lost, t) = rw lost (ask-again tries rest t)
  ask-again (a ∷ tries) rest (inr (sent, e), t) = rw (sent, e) (ask-again tries rest t)

  -- After any number of turns that fail, a turn that sends the request and receives the answer that a
  -- primary gives by its buffer: the capture over the network succeeds, with the timestamps that a
  -- local capture gives from that buffer.
  pub capture_network-local :
      (tries rest : List Attempt) (a : Attempt) (buffer m : List ℕ)
      → All Fails tries
      → a.sends ≡ true
      → recvfrom_msg a.gets_flags a.sets_flags a.rounds ≡ success (some m)
      → answer (request n) buffer ≡ some m
      → (va : List ℕ) × (capture_primary_vsync_network n true (tries ++ (a ∷ rest))
          ≡ success (some va))
        × (capture_primary_vsync_local n buffer ≡ some va)
  unfolding capture_primary_vsync_network ask or_later copied
  capture_network-local tries rest a buffer m failed sent received answered =
      let now : ask (a ∷ rest) ≡ success (some m) = rw (sent, received) refl in
      (
        take n m,
        ap (copied n) (ask-again tries (a ∷ rest) failed ∙ now),
        take-answer n buffer m answered,
      )
