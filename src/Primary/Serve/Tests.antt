-- ===== src/Primary/Serve/Tests.antt =====
-- A primary with a monitor, two clients, of which the second gets no thread, and a failing accept.
use software_vsync_modulatio.Prelude.{true, false, List, [], ◌∷◌}
use software_vsync_modulatio.Prelude.Int.{pos}
use software_vsync_modulatio.Primary.Serve.{Accepted, Env, client, refused, do_primary}
use software_vsync_modulatio.Primary.Serve.Ends.{EndsWell, do_primary-EndsWell}

abbrev monitored : Env
monitored = record { is_ptp = false; init_fails = false; enable_monitoring = true }

abbrev two_clients : List Accepted
two_clients = client 4 true ∷ client 5 false ∷ refused ∷ []

do_primary-EndsWell_example :
    EndsWell monitored two_clients (do_primary monitored (pos 0) two_clients)
do_primary-EndsWell_example = do_primary-EndsWell monitored (pos 0) two_clients
