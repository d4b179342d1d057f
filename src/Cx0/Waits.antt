-- ===== src/Cx0/Waits.antt =====
-- The waits of the message bus look at their register once, whatever it holds.
use software_vsync_modulatio.Prelude.{ℕ, ◌≢◌, Bool, arith}
use software_vsync_modulatio.Mmio.{Mmio}
use software_vsync_modulatio.Cx0.Registers.{read_ack, m2p_msgbus_ctl, read_word}
use software_vsync_modulatio.Cx0.Access.{
  intel_de_write, de_wait_for_register, intel_de_wait_for_clear, intel_de_wait_for_register,
  intel_wait_for_register, wait_for_register, wait_for_register_fw,
}
use software_vsync_modulatio.Cx0.Message.{
  cx0_read_once, cx0_write_once, intel_cx0_wait_for_ack, etimedout,
}

module _ {D : Type 0} (mmio : Mmio D) where
  wait_for_ack-in_time :
      (port command lane : ℕ) (d : D)
      → (intel_cx0_wait_for_ack mmio port command lane d).0 ≢ etimedout
  unfolding intel_cx0_wait_for_ack de_wait_for_register wait_for_register wait_for_register_fw
  wait_for_ack-in_time port command lane d = ground arith

  -- No try of a read or of a write reports a timeout, on any device and in any state: the result
  -- is never -ETIMEDOUT, since no wait of the bus can fail.
  pub once-in_time :
      (port lane addr value : ℕ) (committed : Bool) (d : D)
      → ((cx0_read_once mmio port lane addr d).0 ≢ etimedout)
        × ((cx0_write_once mmio port lane addr value committed d).0 ≢ etimedout)
  unfolding cx0_read_once cx0_write_once intel_de_wait_for_clear intel_de_wait_for_register
      intel_wait_for_register wait_for_register wait_for_register_fw
  once-in_time port lane addr value committed d = (
    ground (
      arith,
      wait_for_ack-in_time port read_ack lane (
          intel_de_write mmio (m2p_msgbus_ctl port lane) (read_word addr)
            (mmio.read_offset_dword (m2p_msgbus_ctl port lane) d).1),
    ),
    ground arith,
  )
