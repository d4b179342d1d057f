-- ===== src/Cx0/Sample/Law.antt =====
-- What a message does to the bus of Cx0/Sample.
use software_vsync_modulatio.Prelude.{
  ℕ, zero, suc, ◌+◌, ◌-◌, ◌*◌, ◌/◌, ◌%◌, ◌^◌, ◌<◌, ◌≡◌, refl, ap, ◌∙◌, Bool, true, false, ◌==◌,
  ◌&&◌, ltb, arith, if◌then◌else◌,
}
use software_vsync_modulatio.Bits.{bit}
use software_vsync_modulatio.Cx0.Registers.{
  m2p_msgbus_ctl, p2m_msgbus_status, pick_even_2ranges, transaction_reset, read_word, write_word,
  error_set,
}
use software_vsync_modulatio.Cx0.Message.{has_error, is_response}
use software_vsync_modulatio.Cx0.Words.{kind_of, read_word-eq, write_word-eq, error_bit, kind_field}
use software_vsync_modulatio.Cx0.Sample.{
  BusState, put_answer, put_cell, serve, faults, message, sample, cell, told,
}

-- A status with a kind and a byte is no error, and one with the error bit is.
pub no_error : (t v : ℕ) → v < 2 ^ 8 → has_error (t * 2 ^ 27 + v * 2 ^ 16) ≡ false
unfolding has_error
no_error t v h = ground (arith, error_bit (t * 2 ^ 27 + v * 2 ^ 16))

pub kind_of_answer :
    (t v k : ℕ) → t < 16 → v < 2 ^ 8 → is_response k (t * 2 ^ 27 + v * 2 ^ 16) ≡ (t == k)
unfolding is_response
kind_of_answer t v k small h =
    rw (kind_field (t * 2 ^ 27 + v * 2 ^ 16) (omega arith))
      (ap (λ (n : ℕ). n == k) {x = (t * 2 ^ 27 + v * 2 ^ 16) / 2 ^ 27} {y = t} (omega arith))

pub refused : has_error (2 ^ 15) ≡ true
unfolding has_error error_set bit
refused = refl

module _ (steady : Bool) where
  -- A message by its fields.
  message-serve :
      (l w kind a v : ℕ) (d : BusState)
      → ltb w (2 ^ 31) ≡ false
      → w / 2 ^ 27 % 16 ≡ kind
      → w % 2 ^ 12 ≡ a
      → w / 2 ^ 16 % 2 ^ 8 ≡ v
      → message steady l w d ≡ (
          if faults steady d == 0
          then serve kind l a v d
          else put_answer l (2 ^ 15) (record d { refusals = d.refusals - 1 }))
  unfolding message
  message-serve l w kind a v d p q r s = rw (p, q, r, s) refl

  message_read :
      (l a : ℕ) (d : BusState)
      → a < 2 ^ 12
      → message steady l (read_word a) d ≡ (
          if faults steady d == 0
          then put_answer l (4 * 2 ^ 27 + d.cells l a % 2 ^ 8 * 2 ^ 16) d
          else put_answer l (2 ^ 15) (record d { refusals = d.refusals - 1 }))
  unfolding serve
  message_read l a d small =
      ap (λ (w : ℕ). message steady l w d) (read_word-eq a small)
      ∙ message-serve l (2 ^ 31 + 3 * 2 ^ 27 + a) 3 a 0 d (ground arith) (omega arith) (omega arith)
          (omega arith)

  serve_write :
      (c : Bool) (l a v : ℕ) (d : BusState)
      → serve (kind_of c) l a v d ≡ put_answer l (if c then 5 * 2 ^ 27 else 0) (put_cell l a v d)
  unfolding serve
  serve_write true l a v d = refl
  serve_write false l a v d = refl

  kind_small : (c : Bool) → kind_of c < 3
  kind_small true = omega arith
  kind_small false = omega arith

  message_write :
      (l a v : ℕ) (c : Bool) (d : BusState)
      → a < 2 ^ 12
      → v < 2 ^ 8
      → message steady l (write_word c a v) d ≡ (
          if faults steady d == 0
          then put_answer l (if c then 5 * 2 ^ 27 else 0) (put_cell l a v d)
          else put_answer l (2 ^ 15) (record d { refusals = d.refusals - 1 }))
  message_write l a v c d small byte =
      let w : ℕ = 2 ^ 31 + kind_of c * 2 ^ 27 + v * 2 ^ 16 + a in
      ap (λ (n : ℕ). message steady l n d) (write_word-eq c a v small byte)
      ∙ message-serve l w (kind_of c) a v d (ground arith) (omega (arith, kind_small c))
          (omega arith) (omega arith)
      ∙ rw (serve_write c l a v d) refl

  -- The registers of the interface are those of the sample.
  pub sent_lem :
      (l w : ℕ) (d : BusState)
      → l < 2
      → (sample steady).write_offset_dword (m2p_msgbus_ctl 0 l) w d ≡ message steady l w d
  unfolding sample m2p_msgbus_ctl pick_even_2ranges
  sent_lem zero w d h = refl
  sent_lem (suc zero) w d h = refl
  sent_lem (suc (suc l)) w d h = absurd (omega arith)

  pub cleared_lem :
      (l v : ℕ) (d : BusState)
      → l < 2
      → (sample steady).write_offset_dword (p2m_msgbus_status 0 l) v d ≡ d
  unfolding sample p2m_msgbus_status pick_even_2ranges
  cleared_lem zero v d h = refl
  cleared_lem (suc zero) v d h = refl
  cleared_lem (suc (suc l)) v d h = absurd (omega arith)

  pub status_lem :
      (l : ℕ) (d : BusState)
      → l < 2
      → ((sample steady).read_offset_dword (p2m_msgbus_status 0 l) d).0 ≡ told l d
  unfolding sample p2m_msgbus_status pick_even_2ranges
  status_lem zero d h = refl
  status_lem (suc zero) d h = refl
  status_lem (suc (suc l)) d h = absurd (omega arith)

  pub looked_lem : (r : ℕ) (d : BusState) → ((sample steady).read_offset_dword r d).1 ≡ d
  unfolding sample
  looked_lem r d = refl

  pub reset_lem : (l : ℕ) (d : BusState) → message steady l transaction_reset d ≡ d
  unfolding message transaction_reset bit
  reset_lem l d = refl

  -- The status after a message.
  pub read_status :
      (l a : ℕ) (d : BusState)
      → a < 2 ^ 12
      → told l (message steady l (read_word a) d)
        ≡ (if faults steady d == 0 then 4 * 2 ^ 27 + d.cells l a % 2 ^ 8 * 2 ^ 16 else 2 ^ 15)
  read_status l a d small = rw (message_read l a d small) (ground arith)

  pub write_status :
      (l a v : ℕ) (c : Bool) (d : BusState)
      → a < 2 ^ 12
      → v < 2 ^ 8
      → told l (message steady l (write_word c a v) d)
        ≡ (if faults steady d == 0 then (if c then 5 * 2 ^ 27 else 0) else 2 ^ 15)
  write_status l a v c d small byte = rw (message_write l a v c d small byte) (ground arith)

  pub faults_read :
      (l a : ℕ) (d : BusState)
      → a < 2 ^ 12
      → faults steady (message steady l (read_word a) d) ≡ faults steady d - 1
  unfolding faults
  faults_read l a d small = rw (message_read l a d small) (ground arith)

  pub faults_write :
      (l a v : ℕ) (c : Bool) (d : BusState)
      → a < 2 ^ 12
      → v < 2 ^ 8
      → faults steady (message steady l (write_word c a v) d) ≡ faults steady d - 1
  unfolding faults
  faults_write l a v c d small byte = rw (message_write l a v c d small byte) (ground arith)

  pub cell_read :
      (l a k b : ℕ) (d : BusState)
      → a < 2 ^ 12
      → cell k b (message steady l (read_word a) d) ≡ cell k b d
  cell_read l a k b d small = rw (message_read l a d small) (ground arith)

  pub cell_write :
      (l a v k b : ℕ) (c : Bool) (d : BusState)
      → a < 2 ^ 12
      → v < 2 ^ 8
      → cell k b (message steady l (write_word c a v) d)
        ≡ (if faults steady d == 0 && (k == l && b == a) then v else cell k b d)
  cell_write l a v k b c d small byte = rw (message_write l a v c d small byte) (ground arith)
