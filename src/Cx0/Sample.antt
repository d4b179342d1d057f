-- ===== src/Cx0/Sample.antt =====
-- A message bus of port 0 that runs: an instance of the promises of Cx0/Device.
mod Law
pub mod Bus
use software_vsync_modulatio.Prelude.{
  ℕ, zero, suc, ◌+◌, ◌-◌, ◌*◌, ◌/◌, ◌%◌, ◌^◌, ◌<◌, ◌≡◌, refl, ap, ◌∙◌, Bool, true, false, not, ◌==◌,
  ◌&&◌, ltb, arith, if◌then◌else◌,
}
use software_vsync_modulatio.Bits.{u32}
use software_vsync_modulatio.Mmio.{Mmio}
use software_vsync_modulatio.Cx0.Registers.{
  m2p_msgbus_ctl, p2m_msgbus_status, pick_even_2ranges, transaction_reset, read_word, write_word,
}
use software_vsync_modulatio.Cx0.Message.{has_error, is_response}
use software_vsync_modulatio.Cx0.Words.{
  kind_of, read_word-eq, write_word-eq, error_bit, kind_field, data_field,
}
use software_vsync_modulatio.Cx0.Device.{IsMsgBus}

-- The registers of each lane, the status of each lane, and the refusals to come.
pub record BusState : Type 0 where
  pub cells : ℕ → ℕ → ℕ
  pub answer : ℕ → ℕ
  pub refusals : ℕ

abbrev put_answer : ℕ → ℕ → BusState → BusState
put_answer l w d = record d { answer = λ k. if k == l then w else d.answer k }

abbrev put_cell : ℕ → ℕ → ℕ → BusState → BusState
put_cell l a v d = record d { cells = λ k b. if k == l && b == a then v else d.cells k b }

-- A message that is carried out.
serve : ℕ → ℕ → ℕ → ℕ → BusState → BusState
serve kind l a v d =
    if kind == 3
    then put_answer l (4 * 2 ^ 27 + d.cells l a % 2 ^ 8 * 2 ^ 16) d
    else put_answer l (if kind == 2 then 5 * 2 ^ 27 else 0) (put_cell l a v d)

-- A bus that is `steady` refuses nothing.
module _ (steady : Bool) where
  unfoldable pub faults : BusState → ℕ
  faults d = if steady then 0 else d.refusals

  pub message : ℕ → ℕ → BusState → BusState
  message l w d =
      if ltb w (2 ^ 31)
      then d
      else (if faults d == 0
          then serve (w / 2 ^ 27 % 16) l (w % 2 ^ 12) (w / 2 ^ 16 % 2 ^ 8) d
          else put_answer l (2 ^ 15) (record d { refusals = d.refusals - 1 }))

  pub sample : Mmio BusState
  unfolding message faults serve
  sample = record {
    read_offset_dword =
        λ r d. (if r == 0x64048 then d.answer 0 else if r == 0x6404C then d.answer 1 else 0, d);
    write_offset_dword =
        λ r w d. if r == 0x64040 then message 0 w d else if r == 0x64044 then message 1 w d else d;
  }

abbrev pub cell : ℕ → ℕ → BusState → ℕ
cell l a d = d.cells l a % 2 ^ 8

abbrev pub told : ℕ → BusState → ℕ
told l d = d.answer l
