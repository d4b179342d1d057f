-- ===== src/Main/Check.antt =====
-- The quick check of the timestamps before the library is initialised.
use software_vsync_modulatio.Prelude.{ℕ, ◌≡◌, List, [], ◌∷◌, if◌then◌else◌}
use software_vsync_modulatio.Prelude.Int.{pos}
use software_vsync_modulatio.Double.{Double}
use software_vsync_modulatio.Mmio.{Mmio}
use software_vsync_modulatio.Drm.{Setup, Poll, os_get_vsync}
use software_vsync_modulatio.Drm.Stored.{os_get_vsync-ne-minus_one}
use software_vsync_modulatio.Main.{Config}
use software_vsync_modulatio.Main.Flow.{
  Env, after, stop, check_vsync, front, init_and_run, check_and_run,
}

module _ {W D : Type 0} (f : Double W) (mmio : Mmio D) (setup : ℕ → Setup) (polls : ℕ → ℕ → Poll)
    (va : List ℕ) (d : D) (env : Env) (c : Config W) where
  -- The result of the check's `get_vsync` on each pipe, for one timestamp.
  abbrev pub with_result : Env
  with_result = record env {
    vsync_result = λ p. (os_get_vsync f mmio (setup p) (polls p) va (pos 1) p c.hardware_ts d).0;
  }

  -- Whatever the device does, also where no timestamp can be read at all: the check only depends
  -- on the option for hardware timestamps and on the clock.
  pub check_and_run-blind :
      (ps : List ℕ)
      → check_and_run f with_result c ps ≡ (
          if c.hardware_ts
          then init_and_run f with_result c ps
          else after
              (check_vsync (front ps) ∷ [])
              (if env.clock_works then init_and_run f with_result c ps else stop 1))
  unfolding check_and_run
  check_and_run-blind ps = simp (
      os_get_vsync-ne-minus_one f mmio (setup (front ps)) (polls (front ps)) va (pos 1) (front ps)
        c.hardware_ts d)
