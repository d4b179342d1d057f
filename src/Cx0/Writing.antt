-- ===== src/Cx0/Writing.antt =====
-- The tries of a write on a bus that refuses some messages.
use software_vsync_modulatio.Prelude.{
  ℕ, zero, suc, ◌-◌, ◌^◌, ◌<◌, ◌≡◌, refl, ap, ◌∙◌, Bool, true, false, inl, inr, Bool-cases, ◌==◌,
  ◌&&◌, ltb, arith, if◌then◌else◌,
}
use software_vsync_modulatio.Prelude.Int.{ℤ, pos}
use software_vsync_modulatio.Mmio.{Mmio}
use software_vsync_modulatio.Cx0.Registers.{m2p_msgbus_ctl, write_ack, write_word}
use software_vsync_modulatio.Cx0.Access.{
  intel_clear_response_ready_flag, intel_de_write, intel_de_read, intel_de_wait_for_clear,
  intel_de_wait_for_register, intel_wait_for_register, wait_for_register, wait_for_register_fw,
}
use software_vsync_modulatio.Cx0.Message.{
  intel_cx0_bus_reset, einval, write_answer, cx0_write_once, write_tries,
}
use software_vsync_modulatio.Cx0.Device.{IsMsgBus, is_write_done}
use software_vsync_modulatio.Cx0.Reading.{
  Same, Same-trans, read-Same, clear-Same, reset-Same, wait_for_ack_taken, wait_for_ack_refused,
  sent, looked,
}

module _ {D : Type 0} (mmio : Mmio D) {port : ℕ} {content : ℕ → ℕ → D → ℕ} {status : ℕ → D → ℕ}
    {faults : D → ℕ} (law : IsMsgBus mmio port content status faults) (l : ℕ) (lane : l < 2) where
  -- The device after the host has looked whether the message is still pending.
  abbrev polled : D → D
  polled d = (mmio.read_offset_dword (m2p_msgbus_ctl port l) d).1

  -- The answer by what the status says.
  write_answer_done :
      (c : Bool) (d : D)
      → is_write_done c (status l d) ≡ true
      → write_answer mmio port l c d ≡ (false, looked mmio law l lane d)
  unfolding write_answer
  write_answer_done true d h =
      rw (wait_for_ack_taken mmio law l lane write_ack d (status l d) (law.status_value l d lane) h)
        refl
  write_answer_done false d h =
      unfold intel_de_read in rw (law.status_value l d lane) (ground arith)

  write_answer_failed :
      (c : Bool) (d : D)
      → is_write_done c (status l d) ≡ false
      → ((write_answer mmio port l c d).0 ≡ true)
        × Same mmio law l lane (write_answer mmio port l c d).1 d
  unfolding write_answer
  write_answer_failed true d h =
      rw
        (wait_for_ack_refused mmio law l lane write_ack d (status l d) (law.status_value l d lane)
          h)
        (
          refl,
          Same-trans mmio law l lane d _ _ (reset-Same mmio law l lane _)
              (read-Same mmio law l lane _ d),
        )
  write_answer_failed false d h =
      unfold intel_de_read in
      (rw (law.status_value l d lane) (ground arith), read-Same mmio law l lane _ d)

  module _ (a v : ℕ) (c : Bool) (small : a < 2 ^ 12) (byte : v < 2 ^ 8) where
    -- The registers after a write that is carried out if `goes`.
    abbrev pub Written : Bool → D → D → Type 0
    Written goes d' d =
        (k b : ℕ) → content k b d' ≡ (if goes && (k == l && b == a) then v else content k b d)

    abbrev message : D → D
    message d = polled (sent mmio law l lane (write_word c a v) d)

    message-done : (d : D) → is_write_done c (status l (message d)) ≡ (faults d == 0)
    message-done d =
        ap (is_write_done c) (law.poll_keeps_status l _ lane)
        ∙ law.write_done l a v c _ lane small byte
        ∙ ap (λ (n : ℕ). n == 0) (law.read_keeps_faults _ d)

    message-Written :
        (d : D) → Written (faults d == 0) (message d) d × (faults (message d) ≡ faults d - 1)
    message-Written d = (
      λ k b.
          law.read_keeps _ k b _
          ∙ law.write_stores l a v k b c _ lane small byte
          ∙ rw
              (
                law.read_keeps_faults (m2p_msgbus_ctl port l) d,
                law.read_keeps (m2p_msgbus_ctl port l) k b d,
              )
              refl,
      law.read_keeps_faults _ _
          ∙ law.write_faults l a v c _ lane small byte
          ∙ ap (λ (n : ℕ). n - 1) (law.read_keeps_faults _ d),
    )

    write_once_done :
        (d : D)
        → faults d ≡ 0
        → cx0_write_once mmio port l a v c d ≡ (
          pos 0,
          intel_clear_response_ready_flag mmio port l (looked mmio law l lane (message d)),
        )
    unfolding cx0_write_once intel_de_write intel_de_wait_for_clear intel_de_wait_for_register
        intel_wait_for_register wait_for_register wait_for_register_fw
    write_once_done d h = rw (write_answer_done c (message d) (message-done d ∙ rw h)) refl

    write_once_failed :
        (d : D)
        → 0 < faults d
        → cx0_write_once mmio port l a v c d
          ≡ (einval, intel_cx0_bus_reset mmio port l (write_answer mmio port l c (message d)).1)
    unfolding cx0_write_once intel_de_write intel_de_wait_for_clear intel_de_wait_for_register
        intel_wait_for_register wait_for_register wait_for_register_fw
    write_once_failed d h =
        rw (write_answer_failed c (message d) (message-done d ∙ ground arith)).0 refl

    write_once-Written :
        (d : D)
        → Written (faults d == 0) (cx0_write_once mmio port l a v c d).1 d
          × (faults (cx0_write_once mmio port l a v c d).1 ≡ faults d - 1)
    write_once-Written d =
        let (w, f) = message-Written d in
        elim (Bool-cases (faults d == 0)) [
          | inl e ↦
              let o = write_once_done d (ground arith) in
              let (kept, same) =
                Same-trans mmio law l lane (message d) _ _ (clear-Same mmio law l lane _)
                  (read-Same mmio law l lane _ _) in
              (
                λ k b. ap (λ (r : ℤ × D). content k b r.1) o ∙ kept k b ∙ w k b,
                ap (λ (r : ℤ × D). faults r.1) o ∙ same ∙ f,
              )
          | inr e ↦
              let o = write_once_failed d (ground arith) in
              let (kept, same) =
                Same-trans mmio law l lane (message d) _ _ (reset-Same mmio law l lane _)
                  (write_answer_failed c (message d) (message-done d ∙ e)).1 in
              (
                λ k b. ap (λ (r : ℤ × D). content k b r.1) o ∙ kept k b ∙ w k b,
                ap (λ (r : ℤ × D). faults r.1) o ∙ same ∙ f,
              )
        ]

    write_tries_done :
        (tries : ℕ) (d : D)
        → faults d ≡ 0
        → write_tries mmio (suc tries) port l a v c d ≡ (cx0_write_once mmio port l a v c d).1
    unfolding write_tries
    write_tries_done tries d h = rw (write_once_done d h) refl

    write_tries_again :
        (tries : ℕ) (d : D)
        → 0 < faults d
        → write_tries mmio (suc tries) port l a v c d
          ≡ write_tries mmio tries port l a v c (cx0_write_once mmio port l a v c d).1
    unfolding write_tries
    write_tries_again tries d h = rw (write_once_failed d h) refl

    -- With `tries` rounds left: the register is written, if the faults run out before the rounds do.
    pub write_tries-Written :
        (tries : ℕ) (d : D)
        → Written (ltb (faults d) tries) (write_tries mmio tries port l a v c d) d
          × (faults (write_tries mmio tries port l a v c d) ≡ faults d - tries)
    write_tries-Written zero d = unfold write_tries in (λ k b. ground arith, omega arith)
    write_tries-Written (suc tries) d = elim (Bool-cases (faults d == 0)) [
      | inl e ↦
          let (w, f) = write_once-Written d in
          rw (write_tries_done tries d (ground arith))
            (λ k b. ground (arith, w k b), ground (arith, f))
      | inr e ↦
          let (w, f) = write_once-Written d in
          let (w', f') = write_tries-Written tries (cx0_write_once mmio port l a v c d).1 in
          rw (write_tries_again tries d (ground arith))
            (λ k b. ground (arith, w k b, w' k b, f), omega (arith, f, f'))
    ]
