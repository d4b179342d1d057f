-- ===== src/Phy/Waiting.antt =====
-- Waiting for the timer or for a shutdown ends with the registers restored.
use software_vsync_modulatio.Prelude.{
  ℕ, ◌≡◌, refl, sym, ap, ◌∙◌, if◌then◌else◌, Bool, true, false, List, [], ◌∷◌, inl, inr, Bool-cases,
  arith,
}
use software_vsync_modulatio.Prelude.Int.{ℤ}
use software_vsync_modulatio.Double.{Double}
use software_vsync_modulatio.Phy.{
  PhyOps, Phys, Event, tick, timer_expires, shut_down, wait_until_done, program_phy, reset_phy_regs,
  always, commit_clock,
}
use software_vsync_modulatio.Phy.Restore.{
  IsRestorable, prepared-saved, reset_phy_regs-live, reset_phy_regs-saved, program_phy-saved,
}

-- Some event of the list ends the wait.
abbrev pub Ends : List Event → Type 0
Ends [] = ⊥
Ends (tick ∷ es) = Ends es
Ends (timer_expires ∷ es) = Unit
Ends (shut_down ∷ es) = Unit

module _ {W S R : Type 0} (f : Double W) (ops : PhyOps W S) {live saved : S → R}
    (laws : IsRestorable ops live saved) where
  reset-done : (stops : ℕ → Bool) (p : Phys W S) → (reset_phy_regs f ops stops p).done ≡ true
  unfolding reset_phy_regs
  reset-done stops p = refl

  wait_when_done :
      (es : List Event) (p : Phys W S)
      → p.done ≡ true
      → live p.hw ≡ saved p.hw
      → live (wait_until_done f ops es p).hw ≡ saved p.hw
  unfolding wait_until_done
  wait_when_done [] p d h = h
  wait_when_done (tick ∷ es) p d h = rw d h
  wait_when_done (timer_expires ∷ es) p d h = rw d h
  wait_when_done (shut_down ∷ es) p d h = reset_phy_regs-live f ops laws (always f ops true) p

  -- While nothing is done, any list of events in which the timer expires or a shutdown comes makes
  -- `wait_until_done` leave the saved values in the registers.
  pub wait_restores :
      (es : List Event) (p : Phys W S)
      → p.done ≡ false
      → Ends es
      → live (wait_until_done f ops es p).hw ≡ saved p.hw
  unfolding wait_until_done
  wait_restores [] p d h = elim h [ ]
  wait_restores (tick ∷ es) p d h =
      ap (λ (b : Bool). live (if b then p else wait_until_done f ops es p).hw) d
      ∙ wait_restores es p d h
  wait_restores (timer_expires ∷ es) p d h =
      ap
        (λ (b : Bool).
          live
            (if b
              then p
              else wait_until_done f ops es (reset_phy_regs f ops (always f ops false) p)).hw)
        d
      ∙ (wait_when_done es (reset_phy_regs f ops (always f ops false) p)
            (reset-done (always f ops false) p)
            (reset_phy_regs-live f ops laws (always f ops false) p
              ∙ sym (reset_phy_regs-saved f ops laws (always f ops false) p))
          ∙ reset_phy_regs-saved f ops laws (always f ops false) p)
  wait_restores (shut_down ∷ es) p d h = reset_phy_regs-live f ops laws (always f ops true) p

  -- A synchronisation that armed its timer, waited for, ends with the registers as they were before
  -- it, by whichever event the wait ends.
  pub wait_until_done-program_phy :
      (stops : ℕ → Bool) (td s1 s2 : W) (st w : ℤ) (reset commit : Bool) (p : Phys W S)
      → (es : List Event) → p.has_ds ≡ true
      → (program_phy f ops stops td s1 s2 st w reset commit p).1.done ≡ false
      → Ends es
      → live (wait_until_done f ops es (program_phy f ops stops td s1 s2 st w reset commit p).1).hw
        ≡ live p.hw
  wait_until_done-program_phy stops td s1 s2 st w reset commit p es ds d h =
      wait_restores es _ d h ∙ program_phy-saved f ops laws stops td s1 s2 st w reset commit p ds

  program_phy-settled :
      (stops : ℕ → Bool) (td s1 s2 : W) (st w : ℤ) (p : Phys W S)
      → p.has_ds ≡ true
      → (program_phy f ops stops td s1 s2 st w true true p).0 ≡ 0
      → (program_phy f ops stops td s1 s2 st w true true p).1.done ≡ true
      → live (program_phy f ops stops td s1 s2 st w true true p).1.hw ≡ live p.hw
  unfolding program_phy commit_clock
  program_phy-settled stops td s1 s2 st w p ds ok d =
      ground (arith, prepared-saved f ops laws td s1 s2 st p)

  pub program_phy-has_ds :
      (stops : ℕ → Bool) (td s1 s2 : W) (st w : ℤ) (reset commit : Bool) (p : Phys W S)
      → (program_phy f ops stops td s1 s2 st w reset commit p).0 ≡ 0
      → p.has_ds ≡ true
  unfolding program_phy
  program_phy-has_ds stops td s1 s2 st w reset commit p ok = ground arith

  -- For every PHY class that keeps the laws IsRestorable: after a program_phy with reset and
  -- commit that returns 0, a wait in which the timer expires or a shutdown comes leaves the
  -- registers as before both.
  pub wait_until_done-success :
      (stops : ℕ → Bool) (td s1 s2 : W) (st w : ℤ) (p : Phys W S) (es : List Event)
      → (program_phy f ops stops td s1 s2 st w true true p).0 ≡ 0
      → Ends es
      → live (wait_until_done f ops es (program_phy f ops stops td s1 s2 st w true true p).1).hw
        ≡ live p.hw
  wait_until_done-success stops td s1 s2 st w p es ok h =
      elim (Bool-cases (program_phy f ops stops td s1 s2 st w true true p).1.done) [
        | inl d ↦
            wait_when_done es _ d (
              program_phy-settled stops td s1 s2 st w p ds ok d
              ∙ sym (program_phy-saved f ops laws stops td s1 s2 st w true true p ds))
            ∙ program_phy-saved f ops laws stops td s1 s2 st w true true p ds
        | inr d ↦ wait_until_done-program_phy stops td s1 s2 st w true true p es ds d h
      ]
    where
      ds : p.has_ds ≡ true
      ds = program_phy-has_ds stops td s1 s2 st w true true p ok
