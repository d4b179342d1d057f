-- ===== src/Mmio.antt =====
-- os/mmio_interface.h: the registers of the display engine, as the PHYs use them, and `reg` of
-- cmn/shared_types.h.
pub mod Store
pub mod Linux
use software_vsync_modulatio.Prelude.{ℕ, ◌≡◌, Bool, false, ◌==◌, if◌then◌else◌}

-- `READ_OFFSET_DWORD` and `WRITE_OFFSET_DWORD` on a device with the state `D`. Reading may change
-- the device.
pub record Mmio (D : Type 0) : Type 0 where
  pub read_offset_dword : ℕ → D → ℕ × D
  pub write_offset_dword : ℕ → ℕ → D → D

-- The registers that the code programs keep what is written to them: `peek` is their content, a
-- read returns it and changes none of them, and a write changes the one register.
pub record IsPlain {D : Type 0} (m : Mmio D) (peek : ℕ → D → ℕ) : Type 0 where
  pub read_value : (a : ℕ) (d : D) → (m.read_offset_dword a d).0 ≡ peek a d
  pub read_keeps : (a b : ℕ) (d : D) → peek b (m.read_offset_dword a d).1 ≡ peek b d
  pub write_same : (a v : ℕ) (d : D) → peek a (m.write_offset_dword a v d) ≡ v
  pub write_other :
      (a b v : ℕ) (d : D) → (b == a) ≡ false → peek b (m.write_offset_dword a v d) ≡ peek b d

-- The saved and the new value of a register; its address is a parameter of the PHY.
pub record Reg : Type 0 where
  pub orig_val : ℕ
  pub mod_val : ℕ
