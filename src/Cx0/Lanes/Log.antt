-- ===== src/Cx0/Lanes/Log.antt =====
-- The logarithm by shifts ends, and is the place of the highest one.
use native.Mathlib.Nat.{pow-suc}
use software_vsync_modulatio.Prelude.{
  ℕ, zero, suc, ◌+◌, ◌*◌, ◌/◌, ◌^◌, ◌≤◌, ◌<◌, ◌≡◌, refl, inl, inr, Option, none, some, ◌==◌,
  Bool-cases, ap, ◌∙◌, arith,
}
use software_vsync_modulatio.Cx0.Lanes.{log_loop, ilog2, lane_mask_to_lane}

-- `k` is the logarithm of `x`.
abbrev IsLog : ℕ → ℕ → Type 0
IsLog k x = (x < 2 ^ (k + 1)) × (0 < x → 2 ^ k ≤ x)

IsLog-half : (k x : ℕ) → 0 < x / 2 → IsLog k (x / 2) → IsLog (k + 1) x
IsLog-half k x h (up, low) = (omega (arith, twice (k + 1)), λ p. omega (arith, twice k, low h))
  where
    twice : (n : ℕ) → 2 ^ (n + 1) ≡ 2 ^ n * 2
    twice n = ap (λ (m : ℕ). 2 ^ m) {x = n + 1} {y = suc n} (omega arith) ∙ pow-suc 2 n

-- The loop from `log` adds the logarithm to it.
log_loop-IsLog :
    (fuel x log : ℕ)
    → x < 2 ^ suc fuel
    → (k : ℕ) × (log_loop (suc fuel) x log ≡ some (log + k)) × IsLog k x
unfolding log_loop
log_loop-IsLog zero x log h = (0, ground arith, (omega arith, omega arith))
log_loop-IsLog (suc fuel) x log h = elim (Bool-cases (x / 2 == 0)) [
  | inl e ↦ (0, rw e (ap some (omega arith)), (ground arith, ground arith))
  | inr e ↦
      let (k, eq, is_log) =
        log_loop-IsLog fuel (x / 2) (log + 1) (omega (arith, pow-suc 2 (suc fuel))) in
      (k + 1, rw e (eq ∙ ap some (omega arith)), IsLog-half k x (ground arith) is_log)
]

ilog2-of_loop : (x k : ℕ) → log_loop 32 x 0 ≡ some k → ilog2 x ≡ k
unfolding ilog2
ilog2-of_loop x k e = ap (λ (o : Option ℕ). elim o [ none ↦ 0 | some log ↦ log ]) e

-- The loop of ilog2 ends within 32 rounds for every value of 32 bits, with the place of its highest
-- set bit: the value is below twice that power of two and, unless it is 0, at least that power.
pub log_loop-ilog2 :
    (x : ℕ)
    → x < 2 ^ 32
    → (log_loop 32 x 0 ≡ some (ilog2 x)) × (x < 2 ^ (ilog2 x + 1)) × (0 < x → 2 ^ ilog2 x ≤ x)
log_loop-ilog2 x h =
    let (k, eq, is_log) = log_loop-IsLog 31 x 0 h in
    let e : log_loop 32 x 0 ≡ some k = eq ∙ ap some (omega arith) in
    rw (e, ilog2-of_loop x k e) (refl, is_log.0, is_log.1)

-- `INTEL_CX0_LANE0`
pub lane0_lem : lane_mask_to_lane 1 ≡ 0
unfolding lane_mask_to_lane ilog2 log_loop
lane0_lem = refl
