-- ===== src/Vsync/Restore.antt =====
-- lib/vsyncalter.cpp: a synchronisation through the library leaves the registers as they were.
use software_vsync_modulatio.Prelude.{
  ℕ, ◌+◌, ◌≡◌, refl, Bool, true, false, none, some, List, [], ◌∷◌, arith, Option-cases, inl, inr,
}
use software_vsync_modulatio.Prelude.Int.{ℤ}
use software_vsync_modulatio.Double.{Double}
use software_vsync_modulatio.Phy.{PhyOps, Phys, Event}
use software_vsync_modulatio.Phy.Restore.{IsRestorable}
use software_vsync_modulatio.Phy.Waiting.{Ends, wait_until_done-success}
use package.software_vsync_modulatio.Vsync.{
  VsyncLib, Request, Progress, program, synchronize_one, synchronize_each, synchronize_vsync,
  next_progress,
}

-- What the registers of a list of PHYs hold.
abbrev pub hardware : {W S R : Type 0} → (S → R) → List (Phys W S) → List R
hardware live [] = []
hardware live (p ∷ ps) = live p.hw ∷ hardware live ps

-- The registers of all PHYs of the library.
abbrev pub registers : {W S R : Type 0} → (S → R) → VsyncLib W S → List R
registers live lib = elim lib.phy_enabled_list [ none ↦ [] | some ps ↦ hardware live ps ]

module _ {W S R : Type 0} (f : Double W) (ops : PhyOps W S) {live saved : S → R}
    (laws : IsRestorable ops live saved) where
  synchronize_one-restores :
      (stops : ℕ → Bool) (es : List Event) (r : Request W) (p : Phys W S)
      → r.reset ≡ true
      → r.commit ≡ true
      → Ends es
      → (synchronize_one f ops stops es r p).0 ≡ 0
      → live (synchronize_one f ops stops es r p).1.hw ≡ live p.hw
  unfolding synchronize_one program
  synchronize_one-restores stops es r p hr hc he ok = ground (
    arith,
    wait_until_done-success f ops laws stops r.time_diff r.shift r.shift2 r.step_threshold
        r.wait_between_steps p es,
  )

  -- A status that is 1 stays 1.
  status_sticks :
      (stops : ℕ → ℕ → Bool) (events : ℕ → List Event) (r : Request W) (pipe : ℤ) (i : ℕ)
      → (ps : List (Phys W S)) (g : Progress)
      → (synchronize_each f ops stops events r pipe i ps g).0.status ≡ 0
      → g.status ≡ 0
  unfolding synchronize_each
  status_sticks stops events r pipe i [] g h = h
  status_sticks stops events r pipe i (p ∷ ps) g h = ground (
    arith,
    status_sticks stops events r pipe (i + 1) ps (next_progress f ops stops events r pipe i p g),
  )

  synchronize_each-restores :
      (stops : ℕ → ℕ → Bool) (events : ℕ → List Event) (r : Request W) (pipe : ℤ) (i : ℕ)
      → (ps : List (Phys W S)) (g : Progress) → r.reset ≡ true
      → r.commit ≡ true
      → ((j : ℕ) → Ends (events j))
      → (synchronize_each f ops stops events r pipe i ps g).0.status ≡ 0
      → hardware live (synchronize_each f ops stops events r pipe i ps g).1 ≡ hardware live ps
  unfolding synchronize_each
  synchronize_each-restores stops events r pipe i [] g hr hc he ok = refl
  synchronize_each-restores stops events r pipe i (p ∷ ps) g hr hc he ok = ground (
    arith,
    he i,
    synchronize_one-restores (stops i) (events i) r p,
    status_sticks stops events r pipe (i + 1) ps (next_progress f ops stops events r pipe i p g),
    synchronize_each-restores stops events r pipe (i + 1) ps
        (next_progress f ops stops events r pipe i p g),
  )

  -- For every PHY class that keeps the laws IsRestorable, and every arithmetic of doubles: a
  -- library synchronisation with reset and commit that returns 0 leaves the registers of every PHY
  -- as they were before, if in each wait the timer expires or a shutdown comes.
  pub synchronize_vsync-restores :
      (stops : ℕ → ℕ → Bool) (events : ℕ → List Event) (r : Request W) (pipe : ℤ)
      → (lib : VsyncLib W S) → r.reset ≡ true
      → r.commit ≡ true
      → ((j : ℕ) → Ends (events j))
      → (synchronize_vsync f ops stops events r pipe lib).0 ≡ 0
      → registers live (synchronize_vsync f ops stops events r pipe lib).1 ≡ registers live lib
  unfolding synchronize_vsync
  synchronize_vsync-restores stops events r pipe lib hr hc he ok =
      elim (Option-cases lib.phy_enabled_list) [
        | inl e ↦ ground arith
        | inr (ps, e) ↦ ground (
          arith,
          synchronize_each-restores stops events r pipe 0 ps
              (record { matched = false; status = 0 }) hr hc he,
        )
      ]
