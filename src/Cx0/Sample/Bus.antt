-- ===== src/Cx0/Sample/Bus.antt =====
-- The bus of Cx0/Sample keeps the promises of Cx0/Device.
use software_vsync_modulatio.Prelude.{
  ℕ, ◌*◌, ◌%◌, ◌^◌, ◌<◌, ◌≡◌, refl, ◌∙◌, Bool, true, false, ◌==◌, arith, if◌then◌else◌, inl, inr,
  Bool-cases,
}
use software_vsync_modulatio.Bits.{reg_field_get}
use software_vsync_modulatio.Cx0.Registers.{read_word, write_word, data_mask, read_ack, write_ack}
use software_vsync_modulatio.Cx0.Words.{data_field}
use software_vsync_modulatio.Cx0.Device.{IsMsgBus, is_read_done, is_write_done}
use software_vsync_modulatio.Cx0.Sample.{BusState, faults, message, sample, cell, told}
use software_vsync_modulatio.Cx0.Sample.Law.{
  no_error, kind_of_answer, refused, sent_lem, cleared_lem, status_lem, looked_lem, reset_lem,
  read_status, write_status, faults_read, faults_write, cell_read, cell_write,
}

module _ (steady : Bool) where
  done_read :
      (l a : ℕ) (d : BusState)
      → a < 2 ^ 12
      → is_read_done (told l (message steady l (read_word a) d)) ≡ (faults steady d == 0)
  done_read l a d small = elim (Bool-cases (faults steady d == 0)) [
    | inl e ↦
        rw (read_status steady l a d small, e)
          (rw
            (
              no_error 4 (d.cells l a % 2 ^ 8) (omega arith),
              kind_of_answer 4 (d.cells l a % 2 ^ 8) read_ack (omega arith) (omega arith),
            )
            refl)
    | inr e ↦ rw (read_status steady l a d small, e) (rw refused refl)
  ]

  done_write :
      (l a v : ℕ) (c : Bool) (d : BusState)
      → a < 2 ^ 12
      → v < 2 ^ 8
      → is_write_done c (told l (message steady l (write_word c a v) d)) ≡ (faults steady d == 0)
  done_write l a v c d small byte = elim (Bool-cases (faults steady d == 0)) [
    | inl e ↦ rw (write_status steady l a v c d small byte, e) (taken c)
    | inr e ↦ rw (write_status steady l a v c d small byte, e) (rw refused refl)
  ]
    where
      taken : (c : Bool) → is_write_done c (if c then 5 * 2 ^ 27 else 0) ≡ true
      taken true =
          rw (no_error 5 0 (omega arith), kind_of_answer 5 0 write_ack (omega arith) (omega arith))
            refl
      taken false = rw (no_error 0 0 (omega arith)) refl

  answer_read :
      (l a : ℕ) (d : BusState)
      → a < 2 ^ 12
      → faults steady d ≡ 0
      → reg_field_get data_mask (told l (message steady l (read_word a) d)) ≡ cell l a d
  answer_read l a d small h = data_field _ ∙ rw (read_status steady l a d small, h) (omega arith)

  pub sample-IsMsgBus : IsMsgBus (sample steady) 0 cell told (faults steady)
  sample-IsMsgBus = record {
    content_byte = λ l a d. omega arith;
    status_value = λ l d h. status_lem steady l d h;
    poll_keeps_status = λ l d h. rw (looked_lem steady) refl;
    read_keeps = λ r l a d. rw (looked_lem steady) refl;
    read_keeps_faults = λ r d. rw (looked_lem steady) refl;
    clear_keeps = λ k v l a d h. rw (cleared_lem steady k v d h) refl;
    clear_keeps_faults = λ k v d h. rw (cleared_lem steady k v d h) refl;
    reset_keeps = λ k l a d h. rw (sent_lem steady k _ d h, reset_lem steady k d) refl;
    reset_keeps_faults = λ k d h. rw (sent_lem steady k _ d h, reset_lem steady k d) refl;
    read_done = λ l a d h small. rw (sent_lem steady l _ d h) (done_read l a d small);
    read_answer = λ l a d h small z. rw (sent_lem steady l _ d h) (answer_read l a d small z);
    read_message_keeps =
        λ l a k b d h small. rw (sent_lem steady l _ d h) (cell_read steady l a k b d small);
    read_faults = λ l a d h small. rw (sent_lem steady l _ d h) (faults_read steady l a d small);
    write_done =
        λ l a v c d h small byte. rw (sent_lem steady l _ d h) (done_write l a v c d small byte);
    write_stores = λ l a v k b c d h small byte.
        rw (sent_lem steady l _ d h) (cell_write steady l a v k b c d small byte);
    write_faults = λ l a v c d h small byte.
        rw (sent_lem steady l _ d h) (faults_write steady l a v c d small byte);
  }
