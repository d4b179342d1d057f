-- ===== src/Cx0/Device.antt =====
-- What a message bus of one port promises: its answers, and how often it refuses.
use software_vsync_modulatio.Prelude.{
  ℕ, ◌-◌, ◌^◌, ◌<◌, ◌≡◌, Bool, true, not, ◌==◌, ◌&&◌, if◌then◌else◌,
}
use software_vsync_modulatio.Bits.{reg_field_get}
use software_vsync_modulatio.Mmio.{Mmio}
use software_vsync_modulatio.Cx0.Registers.{
  m2p_msgbus_ctl, p2m_msgbus_status, transaction_reset, data_mask, read_ack, write_ack, read_word,
  write_word,
}
use software_vsync_modulatio.Cx0.Message.{has_error, is_response}

-- A status by which a read, and a write, is taken as done.
abbrev pub is_read_done : ℕ → Bool
is_read_done val = not (has_error val) && is_response read_ack val

abbrev pub is_write_done : Bool → ℕ → Bool
is_write_done committed val =
    not (has_error val) && (if committed then is_response write_ack val else true)

-- `content l a` is the register `a` of the PHY behind lane `l`, `status l` the status of the lane
-- that the host reads, and `faults` is how many of the messages to come are refused. Each message
-- is refused, or carried out and answered, at once; only a message takes one from `faults`, and
-- only a write that is carried out changes a register.
pub record IsMsgBus {D : Type 0} (mmio : Mmio D) (port : ℕ) (content : ℕ → ℕ → D → ℕ)
    (status : ℕ → D → ℕ) (faults : D → ℕ) : Type 0 where
  pub content_byte : (l a : ℕ) (d : D) → content l a d < 2 ^ 8
  pub status_value :
      (l : ℕ) (d : D) → l < 2 → (mmio.read_offset_dword (p2m_msgbus_status port l) d).0 ≡ status l d
  pub poll_keeps_status :
      (l : ℕ) (d : D)
      → l < 2
      → status l (mmio.read_offset_dword (m2p_msgbus_ctl port l) d).1 ≡ status l d
  pub read_keeps : (r l a : ℕ) (d : D) → content l a (mmio.read_offset_dword r d).1 ≡ content l a d
  pub read_keeps_faults : (r : ℕ) (d : D) → faults (mmio.read_offset_dword r d).1 ≡ faults d
  pub clear_keeps :
      (k v l a : ℕ) (d : D)
      → k < 2
      → content l a (mmio.write_offset_dword (p2m_msgbus_status port k) v d) ≡ content l a d
  pub clear_keeps_faults :
      (k v : ℕ) (d : D)
      → k < 2
      → faults (mmio.write_offset_dword (p2m_msgbus_status port k) v d) ≡ faults d
  pub reset_keeps :
      (k l a : ℕ) (d : D)
      → k < 2
      → content l a (mmio.write_offset_dword (m2p_msgbus_ctl port k) transaction_reset d)
        ≡ content l a d
  pub reset_keeps_faults :
      (k : ℕ) (d : D)
      → k < 2
      → faults (mmio.write_offset_dword (m2p_msgbus_ctl port k) transaction_reset d) ≡ faults d
  pub read_done :
      (l a : ℕ) (d : D)
      → l < 2
      → a < 2 ^ 12
      → is_read_done (status l (mmio.write_offset_dword (m2p_msgbus_ctl port l) (read_word a) d))
        ≡ (faults d == 0)
  pub read_answer :
      (l a : ℕ) (d : D)
      → l < 2
      → a < 2 ^ 12
      → faults d ≡ 0
      → reg_field_get data_mask
          (status l (mmio.write_offset_dword (m2p_msgbus_ctl port l) (read_word a) d))
        ≡ content l a d
  pub read_message_keeps :
      (l a k b : ℕ) (d : D)
      → l < 2
      → a < 2 ^ 12
      → content k b (mmio.write_offset_dword (m2p_msgbus_ctl port l) (read_word a) d)
        ≡ content k b d
  pub read_faults :
      (l a : ℕ) (d : D)
      → l < 2
      → a < 2 ^ 12
      → faults (mmio.write_offset_dword (m2p_msgbus_ctl port l) (read_word a) d) ≡ faults d - 1
  pub write_done :
      (l a v : ℕ) (c : Bool) (d : D)
      → l < 2
      → a < 2 ^ 12
      → v < 2 ^ 8
      → is_write_done c
          (status l (mmio.write_offset_dword (m2p_msgbus_ctl port l) (write_word c a v) d))
        ≡ (faults d == 0)
  pub write_stores :
      (l a v k b : ℕ) (c : Bool) (d : D)
      → l < 2
      → a < 2 ^ 12
      → v < 2 ^ 8
      → content k b (mmio.write_offset_dword (m2p_msgbus_ctl port l) (write_word c a v) d)
        ≡ (if faults d == 0 && (k == l && b == a) then v else content k b d)
  pub write_faults :
      (l a v : ℕ) (c : Bool) (d : D)
      → l < 2
      → a < 2 ^ 12
      → v < 2 ^ 8
      → faults (mmio.write_offset_dword (m2p_msgbus_ctl port l) (write_word c a v) d) ≡ faults d - 1
