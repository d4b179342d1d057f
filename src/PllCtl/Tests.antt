-- ===== src/PllCtl/Tests.antt =====
-- The theorem on the loop of pllctl/pllctl.cpp at a pipe that runs a little fast.
use software_vsync_modulatio.Prelude.{ℕ, ◌≡◌, ◌≤◌, ◌<◌, true, false, ltb, ◌+◌, ◌*◌}
use software_vsync_modulatio.Prelude.Int.{ℤ, pos}
use software_vsync_modulatio.Double.Micro.{micro}
use software_vsync_modulatio.PllCtl.{Env, adjust, vblank_interval, max_iterations}
use software_vsync_modulatio.PllCtl.Adjust.{changes, goes, adjust_stops}

-- Each change makes the interval 10 ns longer, and Ctrl+C comes after thirty rounds.
abbrev an_env : Env ℤ
an_env = record {
  init_result = 0;
  create_result = 0;
  clock = pos 8100000000;
  interval = λ i. pos (16660000 + 10 * i);
  continues = λ i. ltb i 30;
}

adjust_stops_example :
    let r =
      adjust micro an_env
        (pos 16666666000)
        max_iterations
        0
        (pos 8100000000)
        (vblank_interval micro an_env (pos 16666666000) 0) in
    (r.iteration ≤ 1000)
    × (r.clocks ≡ changes micro an_env (pos 16666666000) r.iteration 0 (pos 8100000000))
    × ((j : ℕ) → j < r.iteration → goes micro an_env (pos 16666666000) j ≡ true)
    × (r.iteration < 1000 → goes micro an_env (pos 16666666000) r.iteration ≡ false)
adjust_stops_example = adjust_stops micro an_env (pos 16666666000) (pos 8100000000)
