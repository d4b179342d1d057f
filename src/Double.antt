-- ===== src/Double.antt =====
-- The `double` of the C++ code as an interface: a type of values with the operations that the
-- code applies to them. Nothing is assumed of rounding; a theorem that needs a law states it.
pub mod Micro
use software_vsync_modulatio.Prelude.{ℕ, Bool}
use software_vsync_modulatio.Prelude.Int.{ℤ}

pub record Double (W : Type 0) : Type 0 where
  -- a conversion from an integer type
  pub of_int : ℤ → W
  -- the literal `n / 10 ^ k`, such as 38.4 for 384 and 1
  pub literal : ℕ → ℕ → W
  pub add : W → W → W
  pub sub : W → W → W
  pub mul : W → W → W
  pub div : W → W → W
  pub fabs : W → W
  pub round : W → W
  pub ceil : W → W
  pub floor : W → W
  -- `<` and `<=`
  pub lt : W → W → Bool
  pub le : W → W → Bool
  -- `==`
  pub eq : W → W → Bool
  -- a cast to a wide signed integer, towards zero
  pub to_int : W → ℤ
