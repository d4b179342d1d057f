-- ===== src/Phy/Stepping.antt =====
-- The clock is changed in steps that end exactly at the target.
use software_vsync_modulatio.Prelude.{
  ℕ, zero, suc, ◌+◌, ◌<◌, ◌≡◌, refl, sym, ap, ◌∙◌, Bool, false, List, [], ◌∷◌, ◌++◌, ◌==◌, arith,
  length, length-append, if◌then◌else◌,
}
use software_vsync_modulatio.Prelude.Int.{pos, pos_part}
use software_vsync_modulatio.Double.{Double}
use software_vsync_modulatio.Phy.{
  PhyOps, apply_frequency, step_loop, set_pll_clock_from, steps_of, step_size_of,
}

suc-test : (n : ℕ) → (suc n == 0) ≡ false
suc-test n = ground arith

module _ {W S : Type 0} (f : Double W) (ops : PhyOps W S) where
  -- The intermediate clocks: `n` sums of the step size.
  abbrev pub ramp : W → ℕ → W → List W
  ramp size zero clock = []
  ramp size (suc n) clock = f.add clock size ∷ ramp size n (f.add clock size)

  -- All clocks that `n` steps set: the sums, and the target itself as the last.
  abbrev pub clocks : W → W → ℕ → W → List W
  clocks target size zero clock = []
  clocks target size (suc n) clock = ramp size n clock ++ (target ∷ [])

  -- Each clock of a list is the one before it, and the first the one given, plus the step size.
  abbrev pub IsRamp : W → W → List W → Type 0
  IsRamp size clock [] = Unit
  IsRamp size clock (c ∷ cs) = (c ≡ f.add clock size) × IsRamp size c cs

  -- Set the clocks of a list in order, up to the first that fails.
  pub drive : Bool → List W → S → ℕ × S
  drive commit [] s = (0, s)
  drive commit (c ∷ cs) s =
      let (r, s') = apply_frequency f ops commit c s in
      let rest = drive commit cs s' in if r == 0 then rest else (1, s')

  length-ramp : (size : W) (n : ℕ) (clock : W) → length (ramp size n clock) ≡ n
  length-ramp size zero clock = refl
  length-ramp size (suc n) clock = omega (arith, length-ramp size n (f.add clock size))

  ramp-IsRamp : (size : W) (n : ℕ) (clock : W) → IsRamp size clock (ramp size n clock)
  ramp-IsRamp size zero clock = tt
  ramp-IsRamp size (suc n) clock = (refl, ramp-IsRamp size n (f.add clock size))

  clocks-last :
      (target size : W) (n : ℕ) (clock : W)
      → 0 < length (clocks target size n clock)
      → (before : List W) × (clocks target size n clock ≡ before ++ (target ∷ []))
        × IsRamp size clock before
  clocks-last target size zero clock h = absurd (omega arith)
  clocks-last target size (suc n) clock h = (ramp size n clock, refl, ramp-IsRamp size n clock)

  clocks-suc :
      (target size : W) (n : ℕ) (clock : W)
      → clocks target size (suc n) clock
        ≡ (if n == 0 then target else f.add clock size)
          ∷ clocks target size n (if n == 0 then target else f.add clock size)
  clocks-suc target size zero clock = refl
  clocks-suc target size (suc n) clock = rw (suc-test n)

  step_loop-drive :
      (stops : ℕ → Bool) (commit : Bool) (target size : W) (n i : ℕ) (clock : W) (s : S)
      → ((j : ℕ) → stops j ≡ false)
      → step_loop f ops stops commit target size n i clock s
        ≡ drive commit (clocks target size n clock) s
  unfolding step_loop drive
  step_loop-drive stops commit target size zero i clock s h = refl
  step_loop-drive stops commit target size (suc n) i clock s h = rw (h i) (
      ap
        (λ (t : ℕ × S).
          if (apply_frequency f ops commit next s).0 == 0
          then t
          else (1, (apply_frequency f ops commit next s).1))
        (step_loop-drive stops commit target size n (i + 1) next
          (apply_frequency f ops commit next s).1 h)
      ∙ ap (λ (cs : List W). drive commit cs s) (sym (clocks-suc target size n clock)))
    where
      next : W
      next = if n == 0 then target else f.add clock size

  length-clocks : (target size : W) (n : ℕ) (clock : W) → length (clocks target size n clock) ≡ n
  length-clocks target size zero clock = refl
  length-clocks target size (suc n) clock =
      omega (arith, length-append (ramp size n clock) (target ∷ []), length-ramp size n clock)

  -- Without a shutdown, with clocks that are positive and a shift that is not negative, the change
  -- of the clock is the setting of a list of clocks, one for each computed step, up to the first
  -- failure: the target as the last, and before it each one the clock before plus the step size.
  pub set_pll_clock_from-drive :
      (stops : ℕ → Bool) (current target shift : W) (commit : Bool) (s : S)
      → ((j : ℕ) → stops j ≡ false)
      → f.le current (f.of_int (pos 0)) ≡ false
      → f.le target (f.of_int (pos 0)) ≡ false
      → f.lt shift (f.of_int (pos 0)) ≡ false
      → (cs : List W) × (length cs ≡ pos_part (steps_of f ops current target shift))
        × (set_pll_clock_from f ops stops current target shift commit s ≡ drive commit cs s)
        × (0 < length cs
            → (before : List W) × (cs ≡ before ++ (target ∷ []))
              × IsRamp (step_size_of f ops current target shift) current before)
  unfolding set_pll_clock_from
  set_pll_clock_from-drive stops current target shift commit s h p q r = (
    clocks target size n current,
    length-clocks target size n current,
    rw (p, q, r) (step_loop-drive stops commit target size n 0 current s h),
    clocks-last target size n current,
  )
    where
      size : W
      size = step_size_of f ops current target shift

      n : ℕ
      n = pos_part (steps_of f ops current target shift)
