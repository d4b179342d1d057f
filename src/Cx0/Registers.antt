-- ===== src/Cx0/Registers.antt =====
-- lib/cx0_helper.h: the registers of the message bus and the fields of its messages.
use software_vsync_modulatio.Prelude.{ℕ, ◌+◌, ◌-◌, ◌*◌, Bool, bit_or, ltb, if◌then◌else◌}
use software_vsync_modulatio.Bits.{u32, bit, genmask, reg_field_prep}

-- `_PICK_EVEN_2RANGES` with the second range from `PORT_TC1` on; the port is below 2 ^ 31.
unfoldable pub pick_even_2ranges : ℕ → ℕ → ℕ → ℕ → ℕ → ℕ
pick_even_2ranges port a b c d =
    if ltb port 3 then u32 (a + port * (b - a)) else u32 (c + (port - 3) * (d - c))

-- `XELPDP_PORT_M2P_MSGBUS_CTL`: what the host writes.
unfoldable pub m2p_msgbus_ctl : ℕ → ℕ → ℕ
unfolding pick_even_2ranges
m2p_msgbus_ctl port lane = u32 (pick_even_2ranges port 0x64040 0x64140 0x16F240 0x16F440 + lane * 4)

-- `XELPDP_PORT_P2M_MSGBUS_STATUS`: what the PHY answers.
unfoldable pub p2m_msgbus_status : ℕ → ℕ → ℕ
unfolding pick_even_2ranges
p2m_msgbus_status port lane =
    u32 (pick_even_2ranges port 0x64040 0x64140 0x16F240 0x16F440 + lane * 4 + 8)

unfoldable pub transaction_pending : ℕ
unfolding bit
transaction_pending = bit 31

unfoldable pub transaction_reset : ℕ
unfolding bit
transaction_reset = bit 15

unfoldable pub response_ready : ℕ
unfolding bit
response_ready = bit 31

unfoldable pub error_set : ℕ
unfolding bit
error_set = bit 15

unfoldable pub command_type_mask : ℕ
unfolding genmask
command_type_mask = genmask 30 27

-- `XELPDP_PORT_M2P_DATA_MASK` and `XELPDP_PORT_P2M_DATA_MASK`
unfoldable pub data_mask : ℕ
unfolding genmask
data_mask = genmask 23 16

unfoldable pub address_mask : ℕ
unfolding genmask
address_mask = genmask 11 0

unfoldable pub command_read : ℕ
unfolding reg_field_prep command_type_mask
command_read = reg_field_prep command_type_mask 3

unfoldable pub command_write_committed : ℕ
unfolding reg_field_prep command_type_mask
command_write_committed = reg_field_prep command_type_mask 2

unfoldable pub command_write_uncommitted : ℕ
unfolding reg_field_prep command_type_mask
command_write_uncommitted = reg_field_prep command_type_mask 1

-- `XELPDP_PORT_P2M_COMMAND_READ_ACK` and `XELPDP_PORT_P2M_COMMAND_WRITE_ACK`
abbrev pub read_ack : ℕ
read_ack = 4

abbrev pub write_ack : ℕ
write_ack = 5

-- The word that starts a read.
unfoldable pub read_word : ℕ → ℕ
unfolding reg_field_prep transaction_pending command_read address_mask
read_word addr = bit_or (bit_or transaction_pending command_read) (reg_field_prep address_mask addr)

-- The word that starts a write.
unfoldable pub write_word : Bool → ℕ → ℕ → ℕ
unfolding reg_field_prep transaction_pending command_write_committed command_write_uncommitted
    address_mask data_mask
write_word committed addr value =
    bit_or
      (bit_or
        (bit_or transaction_pending
          (if committed then command_write_committed else command_write_uncommitted))
        (reg_field_prep data_mask value))
      (reg_field_prep address_mask addr)
