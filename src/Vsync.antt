-- ===== src/Vsync.antt =====
-- lib/vsyncalter.cpp: the library's entry points over the list of enabled PHYs. Each PHY owns its
-- registers, so its part of the hardware is a part of its own state. The list holds objects, no null
-- pointers: `find_enabled_phys` pushes none.
pub mod Restore
pub mod Pipes
mod Tests
use software_vsync_modulatio.Prelude.{
  ℕ, zero, suc, ◌+◌, ◌-◌, ◌≡◌, Bool, true, false, not, Option, none, some, List, [], ◌∷◌, ◌==◌,
  ◌&&◌, ◌||◌, ltb, get_or, if◌then◌else◌,
}
use software_vsync_modulatio.Prelude.Int.{ℤ, pos, ltb_ℤ}
use software_vsync_modulatio.Prelude.Signed.{◌==ℤ◌, signed64}
use software_vsync_modulatio.Double.{Double}
use software_vsync_modulatio.Phy.{PhyOps, Phys, Event, program_phy, wait_until_done, set_pll_clock}

-- `VSYNC_ALL_PIPES`
abbrev pub vsync_all_pipes : ℤ
vsync_all_pipes = pos 4

-- `pipe == VSYNC_ALL_PIPES || pipe == (*it)->get_pipe()`
pub selects : ℤ → ℤ → Bool
selects pipe own = pipe ==ℤ vsync_all_pipes || pipe ==ℤ own

-- `IS_INIT()` and `phy_enabled_list`.
pub record VsyncLib (W S : Type 0) : Type 0 where
  pub is_init : Bool
  pub phy_enabled_list : Option (List (Phys W S))

-- The arguments of `synchronize_vsync` after the pipe.
pub record Request (W : Type 0) : Type 0 where
  pub time_diff : W
  pub shift : W
  pub shift2 : W
  pub step_threshold : ℤ
  pub wait_between_steps : ℤ
  pub reset : Bool
  pub commit : Bool

-- What the loop has found: a matching PHY, and the status.
pub record Progress : Type 0 where
  pub matched : Bool
  pub status : ℕ

module _ {W S : Type 0} (f : Double W) (ops : PhyOps W S) where
  -- `fabs(time_diff) >= 20 || shift < 0.0 || shift2 < 0.0 || shift > 1.0 || shift2 > 1.0`
  pub is_out_of_range : Request W → Bool
  is_out_of_range r =
      f.le (f.of_int (pos 20)) (f.fabs r.time_diff)
      || (f.lt r.shift (f.of_int (pos 0))
          || (f.lt r.shift2 (f.of_int (pos 0))
              || (f.lt (f.of_int (pos 1)) r.shift || f.lt (f.of_int (pos 1)) r.shift2)))

  pub program : (ℕ → Bool) → Request W → Phys W S → ℕ × Phys W S
  program stops r p =
      program_phy f ops stops r.time_diff r.shift r.shift2 r.step_threshold r.wait_between_steps
        r.reset r.commit p

  -- One PHY of the loop: program it, and wait if it is to be reset.
  pub synchronize_one : (ℕ → Bool) → List Event → Request W → Phys W S → ℕ × Phys W S
  synchronize_one stops es r p =
      let (q, p') = program stops r p in
      if q == 0
      then (if r.reset && r.commit then (0, wait_until_done f ops es p') else (0, p'))
      else (1, p')

  -- The progress after one PHY.
  abbrev pub next_progress :
      (ℕ → ℕ → Bool) → (ℕ → List Event) → Request W → ℤ → ℕ → Phys W S → Progress → Progress
  next_progress stops events r pipe i p g =
      if selects pipe p.pipe
      then record {
        matched = true;
        status = if (synchronize_one (stops i) (events i) r p).0 == 0 then g.status else 1;
      }
      else g

  -- The loop over the PHYs. For the PHY at `i`, `stops i` is what its stepping sees of a shutdown,
  -- and `events i` what happens while it waits.
  pub synchronize_each :
      (ℕ → ℕ → Bool)
      → (ℕ → List Event)
      → Request W
      → ℤ
      → ℕ
      → List (Phys W S)
      → Progress
      → Progress × List (Phys W S)
  synchronize_each stops events r pipe i [] g = (g, [])
  synchronize_each stops events r pipe i (p ∷ ps) g =
      let (g', ps') =
        synchronize_each stops events r pipe (i + 1) ps (next_progress stops events r pipe i p g) in
      (g', (if selects pipe p.pipe then (synchronize_one (stops i) (events i) r p).1 else p) ∷ ps')

  pub synchronize_vsync :
      (ℕ → ℕ → Bool) → (ℕ → List Event) → Request W → ℤ → VsyncLib W S → ℕ × VsyncLib W S
  synchronize_vsync stops events r pipe lib =
      if not lib.is_init || is_out_of_range r then (1, lib) else elim lib.phy_enabled_list [
        | none ↦ (1, lib)
        | some ps ↦
            let (g, ps') =
              synchronize_each stops events r pipe 0 ps (record { matched = false; status = 0 }) in
            (if g.matched then g.status else 1, record lib { phy_enabled_list = some ps' })
      ]

  -- `set_pll_clock` of the library: every selected PHY, and the last failure.
  pub set_each : (ℕ → ℕ → Bool) → W → W → ℤ → ℕ → List (Phys W S) → ℕ → ℕ × List (Phys W S)
  set_each stops target shift pipe i [] result = (result, [])
  set_each stops target shift pipe i (p ∷ ps) result =
      let (ret, s') = set_pll_clock f ops (stops i) target shift p.hw in
      let p' : Phys W S = record p { hw = s' } in
      let chosen = selects pipe p.pipe in
      let (last, ps') =
        set_each stops target shift pipe (i + 1) ps
          (if chosen && not (ret == 0) then ret else result) in
      (last, (if chosen then p' else p) ∷ ps')

  pub set_pll_clocks : (ℕ → ℕ → Bool) → W → W → ℤ → VsyncLib W S → ℕ × VsyncLib W S
  set_pll_clocks stops target shift pipe lib =
      if lib.is_init
      then elim lib.phy_enabled_list [
        | none ↦ (1, lib)
        | some ps ↦
            let (result, ps') = set_each stops target shift pipe 0 ps 0 in
            (result, record lib { phy_enabled_list = some ps' })
      ]
      else (1, lib)

  -- The first PHY of a pipe.
  pub find_pipe : ℤ → List (Phys W S) → Option (Phys W S)
  find_pipe pipe [] = none
  find_pipe pipe (p ∷ ps) = let rest = find_pipe pipe ps in if pipe ==ℤ p.pipe then some p else rest

  -- `get_pll_clock`; the reading changes no member of the object.
  pub get_pll_clock : ℤ → VsyncLib W S → W
  get_pll_clock pipe lib =
      if not lib.is_init || pipe ==ℤ vsync_all_pipes
      then f.of_int (pos 0)
      else elim lib.phy_enabled_list [
        | none ↦ f.of_int (pos 0)
        | some ps ↦ elim (find_pipe pipe ps) [
          | none ↦ f.of_int (pos 0)
          | some p ↦ (ops.calculate_pll_clock p.hw).0
        ]
      ]
