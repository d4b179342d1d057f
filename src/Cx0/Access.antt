-- ===== src/Cx0/Access.antt =====
-- lib/cx0_helper.cpp: waiting for a register, and reading and writing one. The trace and error lines
-- are left out, as everywhere.
use software_vsync_modulatio.Prelude.{ℕ, ◌-◌, ◌^◌, bit_and, bit_or}
use software_vsync_modulatio.Prelude.Int.{ℤ, pos}
use software_vsync_modulatio.Bits.{u32}
use software_vsync_modulatio.Mmio.{Mmio}
use software_vsync_modulatio.Cx0.Registers.{p2m_msgbus_status, response_ready, error_set}

-- `(old & ~clear) | set` on a `u32`.
unfoldable pub merge : ℕ → ℕ → ℕ → ℕ
merge old clear new = u32 (bit_or (bit_and old (2 ^ 32 - 1 - clear)) new)

module _ {D : Type 0} (mmio : Mmio D) where
  open mmio use {read_offset_dword, write_offset_dword}

  -- One read of the register, whatever it holds: the result, the value read, and the device.
  unfoldable pub wait_for_register_fw : ℕ → ℕ → ℕ → D → ℤ × ℕ × D
  wait_for_register_fw reg mask value d =
      let (reg_value, d') = read_offset_dword reg d in (pos 0, reg_value, d')

  unfoldable pub wait_for_register : ℕ → ℕ → ℕ → D → ℤ × ℕ × D
  unfolding wait_for_register_fw
  wait_for_register reg mask value d =
      let (ret, reg_value, d') = wait_for_register_fw reg mask value d in (ret, reg_value, d')

  -- `intel_wait_for_register`, without the place for the value.
  unfoldable pub intel_wait_for_register : ℕ → ℕ → ℕ → ℕ → D → ℤ × D
  unfolding wait_for_register
  intel_wait_for_register reg mask value timeout_ms d =
      let (ret, reg_value, d') = wait_for_register reg mask value d in (ret, d')

  -- `__intel_de_wait_for_register`
  unfoldable pub de_wait_for_register : ℕ → ℕ → ℕ → D → ℤ × ℕ × D
  unfolding wait_for_register
  de_wait_for_register reg mask value d = wait_for_register reg mask value d

  unfoldable pub intel_de_wait_for_register : ℕ → ℕ → ℕ → ℕ → D → ℤ × D
  unfolding intel_wait_for_register
  intel_de_wait_for_register reg mask value timeout d =
      intel_wait_for_register reg mask value timeout d

  unfoldable pub intel_de_wait_for_clear : ℕ → ℕ → ℕ → D → ℤ × D
  unfolding intel_de_wait_for_register
  intel_de_wait_for_clear reg mask timeout d = intel_de_wait_for_register reg mask 0 timeout d

  -- The old value, and the device.
  unfoldable pub intel_uncore_rmw : ℕ → ℕ → ℕ → D → ℕ × D
  unfolding merge
  intel_uncore_rmw reg clear new d =
      let (old, d') = read_offset_dword reg d in
      (old, write_offset_dword reg (merge old clear new) d')

  unfoldable pub intel_de_rmw : ℕ → ℕ → ℕ → D → ℕ × D
  unfolding intel_uncore_rmw
  intel_de_rmw reg clear new d = intel_uncore_rmw reg clear new d

  unfoldable pub intel_de_read : ℕ → D → ℕ × D
  intel_de_read reg d = read_offset_dword reg d

  unfoldable pub intel_de_write : ℕ → ℕ → D → D
  intel_de_write reg val d = write_offset_dword reg val d

  unfoldable pub intel_clear_response_ready_flag : ℕ → ℕ → D → D
  unfolding intel_de_rmw p2m_msgbus_status response_ready error_set
  intel_clear_response_ready_flag port lane d =
      (intel_de_rmw (p2m_msgbus_status port lane) 0 (bit_or response_ready error_set) d).1
