-- ===== src/Cx0/Reading.antt =====
-- The tries of a read and of a write on a bus that refuses some messages.
use software_vsync_modulatio.Prelude.{
  ℕ, zero, suc, ◌-◌, ◌^◌, ◌<◌, ◌≡◌, refl, ap, ◌∙◌, true, false, not, inl, inr, Bool-cases, ◌==◌,
  ◌&&◌, ltb, arith, if◌then◌else◌,
}
use software_vsync_modulatio.Prelude.Int.{pos}
use software_vsync_modulatio.Mmio.{Mmio}
use software_vsync_modulatio.Cx0.Registers.{m2p_msgbus_ctl, p2m_msgbus_status, read_ack, read_word}
use software_vsync_modulatio.Cx0.Access.{
  intel_clear_response_ready_flag, intel_de_rmw, intel_uncore_rmw, intel_de_write,
  intel_de_wait_for_clear, intel_de_wait_for_register, intel_wait_for_register, wait_for_register,
  wait_for_register_fw, de_wait_for_register,
}
use software_vsync_modulatio.Cx0.Message.{
  has_error, is_response, intel_cx0_bus_reset, intel_cx0_wait_for_ack, cx0_read_once, read_tries,
  einval,
}
use software_vsync_modulatio.Cx0.Device.{IsMsgBus, is_read_done}

module _ {D : Type 0} (mmio : Mmio D) {port : ℕ} {content : ℕ → ℕ → D → ℕ} {status : ℕ → D → ℕ}
    {faults : D → ℕ} (law : IsMsgBus mmio port content status faults) (l : ℕ) (lane : l < 2) where
  -- Neither the registers nor the faults to come are changed.
  abbrev pub Same : D → D → Type 0
  Same d' d = ((k b : ℕ) → content k b d' ≡ content k b d) × (faults d' ≡ faults d)

  pub Same-trans : (d d' d'' : D) → Same d'' d' → Same d' d → Same d'' d
  Same-trans d d' d'' (c, f) (c', f') = (λ k b. c k b ∙ c' k b, f ∙ f')

  pub read-Same : (r : ℕ) (d : D) → Same (mmio.read_offset_dword r d).1 d
  read-Same r d = (λ k b. law.read_keeps r k b d, law.read_keeps_faults r d)

  pub clear-Same : (d : D) → Same (intel_clear_response_ready_flag mmio port l d) d
  unfolding intel_clear_response_ready_flag intel_de_rmw intel_uncore_rmw
  clear-Same d =
      Same-trans d _ _ (λ k b. law.clear_keeps l _ k b _ lane, law.clear_keeps_faults l _ _ lane)
        (read-Same _ d)

  pub reset-Same : (d : D) → Same (intel_cx0_bus_reset mmio port l d) d
  unfolding intel_cx0_bus_reset intel_de_write intel_de_wait_for_clear intel_de_wait_for_register
      intel_wait_for_register wait_for_register wait_for_register_fw
  reset-Same d = Same-trans d _ _ (clear-Same _) (
      Same-trans d _ _ (read-Same _ _)
        (λ k b. law.reset_keeps l k b d lane, law.reset_keeps_faults l d lane))

  -- The wait for an answer reads the status once, and resets the bus if it is not the right one.
  module _ (command : ℕ) (d : D) (val : ℕ)
      (value : (mmio.read_offset_dword (p2m_msgbus_status port l) d).0 ≡ val) where
    pub wait_for_ack_taken :
        not (has_error val) && is_response command val ≡ true
        → intel_cx0_wait_for_ack mmio port command l d
          ≡ (pos 0, val, (mmio.read_offset_dword (p2m_msgbus_status port l) d).1)
    unfolding intel_cx0_wait_for_ack de_wait_for_register wait_for_register wait_for_register_fw
    wait_for_ack_taken h = rw value (ground arith)

    pub wait_for_ack_refused :
        not (has_error val) && is_response command val ≡ false
        → intel_cx0_wait_for_ack mmio port command l d ≡ (
          einval,
          val,
          intel_cx0_bus_reset mmio port l (mmio.read_offset_dword (p2m_msgbus_status port l) d).1,
        )
    unfolding intel_cx0_wait_for_ack de_wait_for_register wait_for_register wait_for_register_fw
    wait_for_ack_refused h = rw value (ground arith)

  -- The device after a message, and after the host has looked at the answer.
  abbrev pub sent : ℕ → D → D
  sent word d =
      mmio.write_offset_dword (m2p_msgbus_ctl port l) word
        (mmio.read_offset_dword (m2p_msgbus_ctl port l) d).1

  abbrev pub looked : D → D
  looked d = (mmio.read_offset_dword (p2m_msgbus_status port l) d).1

  module _ (a : ℕ) (small : a < 2 ^ 12) (d : D) where
    read_word_done : is_read_done (status l (sent (read_word a) d)) ≡ (faults d == 0)
    read_word_done =
        law.read_done l a _ lane small ∙ ap (λ (n : ℕ). n == 0) (law.read_keeps_faults _ d)

    read_once_served :
        faults d ≡ 0
        → cx0_read_once mmio port l a d ≡ (
          pos (content l a d),
          intel_clear_response_ready_flag mmio port l (looked (sent (read_word a) d)),
        )
    unfolding cx0_read_once intel_de_write intel_de_wait_for_clear intel_de_wait_for_register
        intel_wait_for_register wait_for_register wait_for_register_fw
    read_once_served h =
        rw
          (wait_for_ack_taken read_ack (sent (read_word a) d) _ (law.status_value l _ lane)
            (read_word_done ∙ rw h))
          (ap
            (λ (n : ℕ).
              (pos n, intel_clear_response_ready_flag mmio port l (looked (sent (read_word a) d))))
            (law.read_answer l a _ lane small (law.read_keeps_faults _ d ∙ h)
              ∙ law.read_keeps _ l a d))

    read_once_refused :
        0 < faults d
        → cx0_read_once mmio port l a d ≡ (
          einval,
          intel_cx0_bus_reset mmio port l
              (intel_cx0_bus_reset mmio port l (looked (sent (read_word a) d))),
        )
    unfolding cx0_read_once intel_de_write intel_de_wait_for_clear intel_de_wait_for_register
        intel_wait_for_register wait_for_register wait_for_register_fw
    read_once_refused h =
        rw
          (wait_for_ack_refused read_ack (sent (read_word a) d) _ (law.status_value l _ lane)
            (read_word_done ∙ ground arith))
          refl

  -- The registers are kept, and one fault is taken if there is one.
  abbrev pub Taken : D → D → Type 0
  Taken d' d = ((k b : ℕ) → content k b d' ≡ content k b d) × (faults d' ≡ faults d - 1)

  pub Same-Taken : (d'' d' d : D) → Same d'' d' → Taken d' d → Taken d'' d
  Same-Taken d'' d' d (c, f) (c', f') = (λ k b. c k b ∙ c' k b, f ∙ f')

  sent_read-Taken : (a : ℕ) → a < 2 ^ 12 → (d : D) → Taken (sent (read_word a) d) d
  sent_read-Taken a small d = (
    λ k b. law.read_message_keeps l a k b _ lane small ∙ law.read_keeps _ k b d,
    law.read_faults l a _ lane small ∙ ap (λ (n : ℕ). n - 1) (law.read_keeps_faults _ d),
  )

  read_once-Taken : (a : ℕ) → a < 2 ^ 12 → (d : D) → Taken (cx0_read_once mmio port l a d).1 d
  read_once-Taken a small d = elim (Bool-cases (faults d == 0)) [
    | inl e ↦ rw (read_once_served a small d (ground arith)) (
        Same-Taken _ _ d (Same-trans _ _ _ (clear-Same _) (read-Same _ _))
          (sent_read-Taken a small d))
    | inr e ↦ rw (read_once_refused a small d (ground arith)) (
        Same-Taken _ _ d
          (Same-trans _ _ _ (reset-Same _) (Same-trans _ _ _ (reset-Same _) (read-Same _ _)))
          (sent_read-Taken a small d))
  ]

  read_tries_done :
      (tries a : ℕ)
      → a < 2 ^ 12
      → (d : D) → faults d ≡ 0
      → read_tries mmio (suc tries) port l a d ≡ (content l a d, (cx0_read_once mmio port l a d).1)
  unfolding read_tries
  read_tries_done tries a small d h =
      rw (read_once_served a small d h) (ground (arith, law.content_byte l a d))

  read_tries_again :
      (tries a : ℕ)
      → a < 2 ^ 12
      → (d : D) → 0 < faults d
      → read_tries mmio (suc tries) port l a d
        ≡ read_tries mmio tries port l a (cx0_read_once mmio port l a d).1
  unfolding read_tries
  read_tries_again tries a small d h = rw (read_once_refused a small d h) refl

  -- With `tries` rounds left: the register, if the faults run out before the rounds do.
  pub read_tries-value :
      (tries a : ℕ)
      → a < 2 ^ 12
      → (d : D)
      → (read_tries mmio tries port l a d).0 ≡ (if ltb (faults d) tries then content l a d else 0)
  read_tries-value zero a small d = unfold read_tries in ground arith
  read_tries-value (suc tries) a small d = elim (Bool-cases (faults d == 0)) [
    | inl e ↦ rw (read_tries_done tries a small d (ground arith)) (ground arith)
    | inr e ↦
        let (kept, taken) = read_once-Taken a small d in
        rw (read_tries_again tries a small d (ground arith)) (
          ground (
            arith,
            kept l a,
            taken,
            read_tries-value tries a small (cx0_read_once mmio port l a d).1,
          ))
  ]

  pub read_tries-kept :
      (tries a : ℕ)
      → a < 2 ^ 12
      → (d : D)
      → ((k b : ℕ) → content k b (read_tries mmio tries port l a d).1 ≡ content k b d)
        × (faults (read_tries mmio tries port l a d).1 ≡ faults d - tries)
  read_tries-kept zero a small d = unfold read_tries in (λ k b. refl, omega arith)
  read_tries-kept (suc tries) a small d = elim (Bool-cases (faults d == 0)) [
    | inl e ↦
        let (kept, taken) = read_once-Taken a small d in
        rw (read_tries_done tries a small d (ground arith)) (kept, ground (arith, taken))
    | inr e ↦
        let (kept, taken) = read_once-Taken a small d in
        let (kept', taken') = read_tries-kept tries a small (cx0_read_once mmio port l a d).1 in
        rw (read_tries_again tries a small d (ground arith))
          (λ k b. kept' k b ∙ kept k b, omega (arith, taken, taken'))
  ]
