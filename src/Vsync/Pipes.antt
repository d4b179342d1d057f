-- ===== src/Vsync/Pipes.antt =====
-- lib/vsyncalter.cpp: which PHYs a synchronisation touches, and when it can succeed.
use software_vsync_modulatio.Prelude.{
  ℕ, ◌+◌, ◌≡◌, refl, Bool, true, false, not, some, List, [], ◌∷◌, ◌||◌, arith, if◌then◌else◌,
  Option-cases, Bool-cases, ◌⊎◌, inl, inr,
}
use software_vsync_modulatio.Prelude.Int.{ℤ, pos, eq_of_parts}
use software_vsync_modulatio.Prelude.Signed.{◌==ℤ◌}
use software_vsync_modulatio.Double.{Double}
use software_vsync_modulatio.Phy.{PhyOps, Phys, Event}
use package.software_vsync_modulatio.Vsync.{
  VsyncLib, Request, Progress, is_out_of_range, synchronize_each, synchronize_vsync, next_progress,
  selects, set_each, set_pll_clocks,
}

-- The list has a PHY of the pipe, or any where the pipe stands for all.
abbrev pub AnySelected : {W S : Type 0} → ℤ → List (Phys W S) → Type 0
AnySelected pipe [] = ⊥
AnySelected pipe (p ∷ ps) = ((pipe ≡ pos 4) ⊎ (pipe ≡ p.pipe)) ⊎ AnySelected pipe ps

-- The second list is the first with changes only in PHYs of the pipe, which may stand for all.
abbrev pub SameElsewhere : {W S : Type 0} → ℤ → List (Phys W S) → List (Phys W S) → Type 0
SameElsewhere pipe [] [] = Unit
SameElsewhere pipe [] (q ∷ qs) = ⊥
SameElsewhere pipe (p ∷ ps) [] = ⊥
SameElsewhere pipe (p ∷ ps) (q ∷ qs) =
    ((q ≡ p) ⊎ (pipe ≡ pos 4) ⊎ (pipe ≡ p.pipe)) × SameElsewhere pipe ps qs

-- A pipe selects PHYs of its own, and the pipe for all selects every one.
selects_only : (pipe own : ℤ) → selects pipe own ≡ true → (pipe ≡ pos 4) ⊎ (pipe ≡ own)
unfolding selects
selects_only pipe own e = elim (Bool-cases (pipe ==ℤ pos 4)) [
  | inl all ↦ inl (eq_of_parts pipe (pos 4) (ground arith))
  | inr one ↦ inr (eq_of_parts pipe own (ground arith))
]

-- What a test by `selects` leaves of a PHY.
kept_unless_selected :
    {A : Type 0} (pipe own : ℤ) (changed old : A)
    → ((if selects pipe own then changed else old) ≡ old) ⊎ (pipe ≡ pos 4) ⊎ (pipe ≡ own)
kept_unless_selected pipe own changed old = elim (Bool-cases (selects pipe own)) [
  | inl e ↦ inr (selects_only pipe own e)
  | inr e ↦ inl (rw e refl)
]

module _ {W S : Type 0} (f : Double W) (ops : PhyOps W S) where
  SameElsewhere-refl : (pipe : ℤ) (ps : List (Phys W S)) → SameElsewhere pipe ps ps
  SameElsewhere-refl pipe [] = tt
  SameElsewhere-refl pipe (p ∷ ps) = (inl refl, SameElsewhere-refl pipe ps)

  synchronize_each-elsewhere :
      (stops : ℕ → ℕ → Bool) (events : ℕ → List Event) (r : Request W) (pipe : ℤ) (i : ℕ)
      → (ps : List (Phys W S)) (g : Progress)
      → SameElsewhere pipe ps (synchronize_each f ops stops events r pipe i ps g).1
  unfolding synchronize_each
  synchronize_each-elsewhere stops events r pipe i [] g = tt
  synchronize_each-elsewhere stops events r pipe i (p ∷ ps) g = (
    kept_unless_selected pipe p.pipe _ p,
    synchronize_each-elsewhere stops events r pipe (i + 1) ps _,
  )

  set_each-elsewhere :
      (stops : ℕ → ℕ → Bool) (target shift : W) (pipe : ℤ) (i : ℕ) (ps : List (Phys W S))
      → (result : ℕ) → SameElsewhere pipe ps (set_each f ops stops target shift pipe i ps result).1
  unfolding set_each
  set_each-elsewhere stops target shift pipe i [] result = tt
  set_each-elsewhere stops target shift pipe i (p ∷ ps) result = (
    kept_unless_selected pipe p.pipe _ p,
    set_each-elsewhere stops target shift pipe (i + 1) ps _,
  )

  -- Whatever a synchronisation returns, the list of PHYs is kept and no PHY is changed whose
  -- pipe is another one, unless the call is for all pipes.
  pub synchronize_vsync-elsewhere :
      (stops : ℕ → ℕ → Bool) (events : ℕ → List Event) (r : Request W) (pipe : ℤ)
      → (lib : VsyncLib W S) (ps : List (Phys W S)) → lib.phy_enabled_list ≡ some ps
      → (qs : List (Phys W S)) × ((synchronize_vsync f ops stops events r pipe
            lib).1.phy_enabled_list
          ≡ some qs)
        × SameElsewhere pipe ps qs
  unfolding synchronize_vsync
  synchronize_vsync-elsewhere stops events r pipe lib ps e =
      elim (Bool-cases (not lib.is_init || is_out_of_range f ops r)) [
        | inl g ↦ (ps, ground arith, SameElsewhere-refl pipe ps)
        | inr g ↦ (
          (synchronize_each f ops stops events r pipe 0 ps
              (record { matched = false; status = 0 })).1,
          ground arith,
          synchronize_each-elsewhere stops events r pipe 0 ps _,
        )
      ]

  -- Whatever the library's set_pll_clock returns, the list of PHYs is kept and no PHY is changed
  -- whose pipe is another one, unless the call is for all pipes.
  pub set_pll_clocks-elsewhere :
      (stops : ℕ → ℕ → Bool) (target shift : W) (pipe : ℤ)
      → (lib : VsyncLib W S) (ps : List (Phys W S)) → lib.phy_enabled_list ≡ some ps
      → (qs : List (Phys W S)) × ((set_pll_clocks f ops stops target shift pipe
            lib).1.phy_enabled_list
          ≡ some qs)
        × SameElsewhere pipe ps qs
  unfolding set_pll_clocks
  set_pll_clocks-elsewhere stops target shift pipe lib ps e = elim (Bool-cases lib.is_init) [
    | inl g ↦ (
      (set_each f ops stops target shift pipe 0 ps 0).1,
      ground arith,
      set_each-elsewhere stops target shift pipe 0 ps 0,
    )
    | inr g ↦ (ps, ground arith, SameElsewhere-refl pipe ps)
  ]

  matched_needs :
      (stops : ℕ → ℕ → Bool) (events : ℕ → List Event) (r : Request W) (pipe : ℤ) (i : ℕ)
      → (ps : List (Phys W S)) (g : Progress)
      → (synchronize_each f ops stops events r pipe i ps g).0.matched ≡ true
      → (g.matched ≡ true) ⊎ AnySelected pipe ps
  unfolding synchronize_each
  matched_needs stops events r pipe i [] g h = inl h
  matched_needs stops events r pipe i (p ∷ ps) g h = elim (Bool-cases (selects pipe p.pipe)) [
    | inl e ↦ inr (inl (selects_only pipe p.pipe e))
    | inr e ↦
        elim (matched_needs stops events r pipe (i + 1) ps
          (next_progress f ops stops events r pipe i p g) h) [
            | inl k ↦ inl (ground arith)
            | inr k ↦ inr (inr k)
          ]
  ]

  -- A synchronisation that returns 0 was called after the initialisation, with arguments in range,
  -- and with a PHY for its pipe in the list.
  pub synchronize_vsync_succeeds :
      (stops : ℕ → ℕ → Bool) (events : ℕ → List Event) (r : Request W) (pipe : ℤ)
      → (lib : VsyncLib W S) → (synchronize_vsync f ops stops events r pipe lib).0 ≡ 0
      → (lib.is_init ≡ true)
        × (is_out_of_range f ops r ≡ false)
        × ((ps : List (Phys W S)) × (lib.phy_enabled_list ≡ some ps) × AnySelected pipe ps)
  unfolding synchronize_vsync
  synchronize_vsync_succeeds stops events r pipe lib ok = elim (Option-cases lib.phy_enabled_list) [
    | inl e ↦ absurd (ground arith)
    | inr (ps, e) ↦ (
      ground arith,
      ground arith,
      (
        ps,
        e,
        elim (matched_needs stops events r pipe 0 ps (record { matched = false; status = 0 })
            (ground arith)) [ inl k ↦ absurd (ground arith) | inr k ↦ k ],
      ),
    )
  ]
