-- ===== src/PllCtl/Adjust.antt =====
-- Where the loop for a refresh period stops.
use software_vsync_modulatio.Prelude.{
  ℕ, zero, suc, ◌+◌, ◌-◌, ◌≤◌, ◌<◌, ◌≡◌, ap, ◌∙◌, Bool, true, false, List, [], ◌∷◌, ◌&&◌,
  if◌then◌else◌, inl, inr, Bool-cases, ◌==◌, arith,
}
use software_vsync_modulatio.Prelude.Int.{pos}
use software_vsync_modulatio.Double.{Double}
use software_vsync_modulatio.PllCtl.{
  Env, Adjusted, adjust, is_far, next_clock, changed, vblank_interval, max_iterations,
}

module _ {W : Type 0} (f : Double W) (env : Env W) (refresh_period : W) where
  -- The interval measured after `i` rounds, in microseconds.
  abbrev pub measured : ℕ → W
  measured i = f.mul (env.interval i) (f.literal 1000 0)

  -- After `i` rounds the interval is off by more than 100 ns, and the program is not to end.
  abbrev pub goes : ℕ → Bool
  goes i = f.lt (f.literal 1 1) (f.fabs (f.sub (measured i) refresh_period)) && env.continues i

  -- The clock 0.001 percent lower where the interval measured after `i` rounds is too short, and else
  -- as much higher.
  abbrev pub moved : ℕ → W → W
  moved i clock =
      let part = f.div (f.literal 1 3) (f.literal 100 0) in
      if f.lt (f.of_int (pos 0)) (f.sub refresh_period (measured i))
      then f.mul clock (f.sub (f.literal 1 0) part)
      else f.mul clock (f.add (f.literal 1 0) part)

  -- The clocks of `n` rounds from the `i`th on.
  pub changes : ℕ → ℕ → W → List W
  changes zero i clock = []
  changes (suc n) i clock = moved i clock ∷ changes n (i + 1) (moved i clock)

  -- What holds of the loop from the `i`th round on.
  StopsRight : ℕ → ℕ → W → Adjusted W → Type 0
  StopsRight left i clock r =
      (i ≤ r.iteration)
      × (r.iteration ≤ i + left)
      × (r.clocks ≡ changes (r.iteration - i) i clock)
      × ((j : ℕ) → i ≤ j → j < r.iteration → goes j ≡ true)
      × (r.iteration < i + left → goes r.iteration ≡ false)

  adjust-StopsRight :
      (left i : ℕ) (clock : W)
      → StopsRight left i clock
          (adjust f env refresh_period left i clock (vblank_interval f env refresh_period i))
  unfolding StopsRight adjust changes is_far next_clock changed vblank_interval
  adjust-StopsRight zero i clock = (
    omega arith,
    omega arith,
    ap (λ (n : ℕ). changes n i clock) {x = 0} {y = i - i} (omega arith),
    λ j p q. absurd (omega arith),
    λ p. absurd (omega arith),
  )
  adjust-StopsRight (suc left) i clock = elim (Bool-cases (goes i)) [
    | inl e ↦
        let clock' : W = moved i clock in
        let (low, high, set, went, stopped) = adjust-StopsRight left (i + 1) clock' in
        let last : ℕ =
          (adjust f env refresh_period left (i + 1) clock'
            (vblank_interval f env refresh_period (i + 1))).iteration in
        rw e (
          omega arith,
          omega arith,
          ap (λ (l : List W). clock' ∷ l) set
              ∙ ap (λ (n : ℕ). changes n i clock) {x = suc (last - (i + 1))} {y = last - i}
                  (omega arith),
          λ j p q. at_or_after i last e went j p q,
          λ p. stopped (omega arith),
        )
    | inr e ↦ rw e (
      omega arith,
      omega arith,
      ap (λ (n : ℕ). changes n i clock) {x = 0} {y = i - i} (omega arith),
      λ j p q. absurd (omega arith),
      λ p. e,
    )
  ]
    where
      at_or_after :
          (i last : ℕ)
          → goes i ≡ true
          → ((j : ℕ) → i + 1 ≤ j → j < last → goes j ≡ true)
          → (j : ℕ) → i ≤ j
          → j < last
          → goes j ≡ true
      at_or_after i last e went j p q = elim (Bool-cases (i == j)) [
        | inl same ↦ ap goes {x = j} {y = i} (ground arith) ∙ e
        | inr differ ↦ went j (ground arith) q
      ]

-- The loop for a refresh period always stops: after at most 1000 rounds, and before that exactly
-- at the first round at which the interval measured is within 100 ns of the period or the program is
-- to end. It has set one clock a round: the clock before lowered by 0.001 percent where the interval
-- measured last is shorter than the period, and else raised by as much.
pub adjust_stops :
    {W : Type 0} (f : Double W) (env : Env W) (refresh_period clock : W)
    → let r =
        adjust f env refresh_period max_iterations 0 clock
          (vblank_interval f env refresh_period 0) in
      (r.iteration ≤ 1000)
      × (r.clocks ≡ changes f env refresh_period r.iteration 0 clock)
      × ((j : ℕ) → j < r.iteration → goes f env refresh_period j ≡ true)
      × (r.iteration < 1000 → goes f env refresh_period r.iteration ≡ false)
unfolding StopsRight
adjust_stops {W} f env refresh_period clock =
    let (low, high, set, went, stopped) =
      adjust-StopsRight f env refresh_period max_iterations 0 clock in
    let last : ℕ =
      (adjust f env refresh_period max_iterations 0 clock
        (vblank_interval f env refresh_period 0)).iteration in
    let all : changes f env refresh_period (last - 0) 0 clock
        ≡ changes f env refresh_period last 0 clock =
      ap (λ (n : ℕ). changes f env refresh_period n 0 clock) {x = last - 0} {y = last}
        (omega arith) in
    (omega arith, set ∙ all, λ j q. went j (omega arith) q, λ q. stopped (omega arith))
