-- ===== src/Connection/Tests.antt =====
-- The connections at concrete inputs.
use software_vsync_modulatio.Prelude.{◌≡◌, true, []}
use software_vsync_modulatio.Prelude.{◌∷◌, arith}
use software_vsync_modulatio.Connection.Address.{str_to_l2_addr}
use software_vsync_modulatio.Connection.Address.RoundTrip.{printed, str_to_l2_addr-printed}

str_to_l2_addr-printed_example :
    str_to_l2_addr (printed 0x84 0x47 9 4 0xEB 14) (0 ∷ 0 ∷ 0 ∷ 0 ∷ 0 ∷ 0 ∷ [])
    ≡ (true, 0x84 ∷ 0x47 ∷ 9 ∷ 4 ∷ 0xEB ∷ 14 ∷ [])
str_to_l2_addr-printed_example =
    str_to_l2_addr-printed 0x84 0x47 9 4 0xEB 14 0 0 0 0 0 0 (omega arith) (omega arith)
      (omega arith) (omega arith) (omega arith) (omega arith)
