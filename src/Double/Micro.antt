-- ===== src/Double/Micro.antt =====
-- Fixed-point numbers in millionths: an instance of the interface that runs.
use software_vsync_modulatio.Prelude.{◌*◌, ◌/◌, ◌^◌, not, if◌then◌else◌}
use software_vsync_modulatio.Prelude.Int.{ℤ, pos, ltb_ℤ, ◌+ℤ◌, ◌-ℤ◌, ◌*ℤ◌}
use software_vsync_modulatio.Prelude.Signed.{magnitude, neg, quot, ◌==ℤ◌}
use package.software_vsync_modulatio.Double.{Double}

abbrev unit : ℤ
unit = pos 1000000

whole : ℤ → ℤ
unfolding ◌*ℤ◌
whole a = quot a unit *ℤ unit

floor_micro : ℤ → ℤ
unfolding whole ◌-ℤ◌
floor_micro a = if ltb_ℤ a (whole a) then whole a -ℤ unit else whole a

round_micro : ℤ → ℤ
unfolding whole ◌+ℤ◌ ◌-ℤ◌
round_micro a = if ltb_ℤ a (pos 0) then whole (a -ℤ pos 500000) else whole (a +ℤ pos 500000)

unfoldable pub micro : Double ℤ
unfolding floor_micro round_micro ◌+ℤ◌ ◌-ℤ◌ ◌*ℤ◌
micro = record {
  of_int = λ a. a *ℤ unit;
  literal = λ n k. pos (n * 1000000 / 10 ^ k);
  add = λ a b. a +ℤ b;
  sub = λ a b. a -ℤ b;
  mul = λ a b. quot (a *ℤ b) unit;
  div = λ a b. if b ==ℤ pos 0 then pos 0 else quot (a *ℤ unit) b;
  fabs = λ a. pos (magnitude a);
  round = round_micro;
  ceil = λ a. neg (floor_micro (neg a));
  floor = floor_micro;
  lt = ltb_ℤ;
  le = λ a b. not (ltb_ℤ b a);
  eq = ◌==ℤ◌;
  to_int = λ a. quot a unit;
}
