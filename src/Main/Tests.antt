-- ===== src/Main/Tests.antt =====
-- The theorems on swgenlock/main.cpp at concrete options.
use software_vsync_modulatio.Prelude.{◌≡◌, refl, true, false, some, [], ◌∷◌, ◌==◌, if◌then◌else◌}
use software_vsync_modulatio.Prelude.Int.{ℤ, pos}
use software_vsync_modulatio.Double.Micro.{micro}
use software_vsync_modulatio.SyncCommon.{is_not_zero}
use software_vsync_modulatio.Options.{parse_pipes_arg, join_ints}
use software_vsync_modulatio.Options.RoundTrip.{chosen, parse_pipes_arg-join_ints}
use software_vsync_modulatio.Main.{pipelock, Config, defaults}
use software_vsync_modulatio.Main.Flow.{
  Env, run, check_and_run, init_and_run, after, stop, front, check_vsync,
}
use software_vsync_modulatio.Main.Starts.{Fits, started, run-starts}
use software_vsync_modulatio.Mmio.Store.{store}
use software_vsync_modulatio.Drm.{Setup, silent}
use software_vsync_modulatio.Main.Check.{with_result, check_and_run-blind}
use software_vsync_modulatio.Main.Ends.{held, nothing, run-releases}

parse_pipes_arg-join_ints_example :
    parse_pipes_arg (join_ints (chosen true false true false)) ≡ some (chosen true false true false)
parse_pipes_arg-join_ints_example = parse_pipes_arg-join_ints true false true false refl

abbrev closed : Setup
closed = record { device_given = true; array_given = true; opens = false; first_request = false }

-- Everything works but the thread of pipe 1.
abbrev an_env : Env
an_env = record {
  vsync_result = λ p. pos 0;
  clock_works = true;
  init_result = 0;
  primary_result = 0;
  has_phy_name = λ p. true;
  create_result = λ p. if p == 1 then 11 else 0;
}

-- `-m pipelock -P 3 -p 0,1`
abbrev a_config : Config ℤ
unfolding defaults
a_config = record (defaults micro) {
  mode = pipelock;
  pipes_arg = b'0' ∷ (b',' ∷ (b'1' ∷ []));
  primary_pipe = pos 3;
}

run-starts_example : Fits a_config 0 (started (run micro an_env a_config).calls)
run-starts_example = run-starts micro an_env a_config

returns-zero : (run micro an_env a_config).status ≡ 0
unfolding run parse_pipes_arg is_not_zero micro a_config
returns-zero = refl

run-releases_example : held (run micro an_env a_config).calls nothing ≡ nothing
run-releases_example = run-releases micro an_env a_config returns-zero

-- A device that does not open.
check_and_run-blind_example :
    let env =
      with_result micro store (λ p. closed) (λ p i. silent) (0 ∷ []) (λ a. 0) an_env a_config in
    check_and_run micro env a_config (0 ∷ []) ≡ (
      if a_config.hardware_ts
      then init_and_run micro env a_config (0 ∷ [])
      else after
          (check_vsync (front (0 ∷ [])) ∷ [])
          (if an_env.clock_works then init_and_run micro env a_config (0 ∷ []) else stop 1))
check_and_run-blind_example =
    check_and_run-blind micro store (λ p. closed) (λ p i. silent) (0 ∷ []) (λ a. 0) an_env a_config
      (0 ∷ [])
