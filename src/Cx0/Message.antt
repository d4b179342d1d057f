-- ===== src/Cx0/Message.antt =====
-- lib/cx0_helper.cpp: one message on the bus, and the three tries of a read and of a write. A result
-- of type `int` is an integer; `-EINVAL` is -22 and `-ETIMEDOUT` is -110.
use software_vsync_modulatio.Prelude.{
  ℕ, zero, suc, ◌-◌, Bool, true, false, not, bit_and, bit_or, ◌==◌, if◌then◌else◌,
}
use software_vsync_modulatio.Prelude.Int.{ℤ, pos, negsuc, pos_part, ltb_ℤ}
use software_vsync_modulatio.Prelude.Signed.{◌==ℤ◌}
use software_vsync_modulatio.Bits.{u8, reg_field_get}
use software_vsync_modulatio.Mmio.{Mmio}
use software_vsync_modulatio.Cx0.Registers.{
  p2m_msgbus_status, m2p_msgbus_ctl, response_ready, error_set, transaction_pending,
  transaction_reset, command_type_mask, data_mask, read_ack, write_ack, read_word, write_word,
}
use software_vsync_modulatio.Cx0.Access.{
  de_wait_for_register, intel_de_wait_for_clear, intel_de_read, intel_de_write,
  intel_clear_response_ready_flag,
}

abbrev pub einval : ℤ
einval = negsuc 21

abbrev pub etimedout : ℤ
etimedout = negsuc 109

-- `if (x)` on an `int`
abbrev is_set : ℤ → Bool
is_set x = not (x ==ℤ pos 0)

abbrev is_negative : ℤ → Bool
is_negative x = ltb_ℤ x (pos 0)

-- The two tests of a status: no error, and the expected kind of answer.
unfoldable pub has_error : ℕ → Bool
has_error val = not (bit_and val error_set == 0)

unfoldable pub is_response : ℕ → ℕ → Bool
is_response command val = reg_field_get command_type_mask val == command

module _ {D : Type 0} (mmio : Mmio D) where
  unfoldable pub intel_cx0_bus_reset : ℕ → ℕ → D → D
  intel_cx0_bus_reset port lane d =
      let d' = intel_de_write mmio (m2p_msgbus_ctl port lane) transaction_reset d in
      let (busy, d'') =
        intel_de_wait_for_clear mmio (m2p_msgbus_ctl port lane) transaction_reset 1 d' in
      if is_set busy then d'' else intel_clear_response_ready_flag mmio port lane d''

  -- The result, the status read, and the device.
  unfoldable pub intel_cx0_wait_for_ack : ℕ → ℕ → ℕ → D → ℤ × ℕ × D
  unfolding has_error is_response
  intel_cx0_wait_for_ack port command lane d =
      let (late, val, d') =
        de_wait_for_register mmio (p2m_msgbus_status port lane) response_ready response_ready d in
      if is_set late
      then (etimedout, val, d')
      else (if has_error val
          then (einval, val, intel_cx0_bus_reset port lane d')
          else (if is_response command val
              then (pos 0, val, d')
              else (einval, val, intel_cx0_bus_reset port lane d')))

  -- `__intel_cx0_read_once`
  unfoldable pub cx0_read_once : ℕ → ℕ → ℕ → D → ℤ × D
  cx0_read_once port lane addr d =
      let (busy, d₁) =
        intel_de_wait_for_clear mmio (m2p_msgbus_ctl port lane) transaction_pending 1 d in
      let (ack, val, d₂) =
        intel_cx0_wait_for_ack port read_ack lane
          (intel_de_write mmio (m2p_msgbus_ctl port lane) (read_word addr) d₁) in
      if is_set busy
      then (etimedout, intel_cx0_bus_reset port lane d₁)
      else (if is_negative ack then (ack, intel_cx0_bus_reset port lane d₂) else (
        pos (reg_field_get data_mask val),
        intel_clear_response_ready_flag mmio port lane d₂,
      ))

  -- The loop of `__intel_cx0_read` with `tries` rounds left.
  unfoldable pub read_tries : ℕ → ℕ → ℕ → ℕ → D → ℕ × D
  read_tries zero port lane addr d = (0, d)
  read_tries (suc tries) port lane addr d =
      let (status, d') = cx0_read_once port lane addr d in
      let rest = read_tries tries port lane addr d' in
      if is_negative status then rest else (u8 (pos_part status), d')

  -- `__intel_cx0_read`
  unfoldable pub cx0_read : ℕ → ℕ → ℕ → D → ℕ × D
  unfolding read_tries
  cx0_read port lane addr d = read_tries 3 port lane addr d

  -- What follows a write: the answer if it is committed, else one look at the status.
  unfoldable pub write_answer : ℕ → ℕ → Bool → D → Bool × D
  write_answer port lane true d =
      let (ack, val, d') = intel_cx0_wait_for_ack port write_ack lane d in (is_negative ack, d')
  write_answer port lane false d =
      let (val, d') = intel_de_read mmio (p2m_msgbus_status port lane) d in (has_error val, d')

  -- `__intel_cx0_write_once`
  unfoldable pub cx0_write_once : ℕ → ℕ → ℕ → ℕ → Bool → D → ℤ × D
  unfolding write_answer
  cx0_write_once port lane addr value committed d =
      let (busy, d₁) =
        intel_de_wait_for_clear mmio (m2p_msgbus_ctl port lane) transaction_pending 1 d in
      let (late, d₂) =
        intel_de_wait_for_clear mmio (m2p_msgbus_ctl port lane) transaction_pending 1
          (intel_de_write mmio (m2p_msgbus_ctl port lane) (write_word committed addr value) d₁) in
      let (failed, d₃) = write_answer port lane committed d₂ in
      if is_set busy
      then (etimedout, intel_cx0_bus_reset port lane d₁)
      else (if is_set late
          then (etimedout, intel_cx0_bus_reset port lane d₂)
          else (if failed
              then (einval, intel_cx0_bus_reset port lane d₃)
              else (pos 0, intel_clear_response_ready_flag mmio port lane d₃)))

  -- The loop of `__intel_cx0_write` with `tries` rounds left.
  unfoldable pub write_tries : ℕ → ℕ → ℕ → ℕ → ℕ → Bool → D → D
  write_tries zero port lane addr value committed d = d
  write_tries (suc tries) port lane addr value committed d =
      let (status, d') = cx0_write_once port lane addr value committed d in
      let rest = write_tries tries port lane addr value committed d' in
      if is_set status then rest else d'

  -- `__intel_cx0_write`
  unfoldable pub cx0_write : ℕ → ℕ → ℕ → ℕ → Bool → D → D
  unfolding write_tries
  cx0_write port lane addr value committed d = write_tries 3 port lane addr value committed d

  -- `__intel_cx0_rmw`; `clear` and `new` are bytes.
  unfoldable pub cx0_rmw : ℕ → ℕ → ℕ → ℕ → ℕ → Bool → D → D
  cx0_rmw port lane addr clear new committed d =
      let (old, d') = cx0_read port lane addr d in
      let val = u8 (bit_or (bit_and old (255 - clear)) new) in
      if val == old then d' else cx0_write port lane addr val committed d'
