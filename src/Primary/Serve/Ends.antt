-- ===== src/Primary/Serve/Ends.antt =====
-- How a primary system ends.
use software_vsync_modulatio.Prelude.{
  ℕ, ◌≡◌, refl, ap, ◌∙◌, Bool, true, false, Option, none, some, List, [], ◌∷◌, ◌++◌, Bool-cases,
  inl, inr, if◌then◌else◌,
}
use software_vsync_modulatio.Prelude.Int.{ℤ}
use software_vsync_modulatio.Primary.Serve.{
  Call, init_server, stop_collector, start_collector, start_monitor, join_monitor, handle_client,
  join_client, detach_client, close_socket, Accepted, refused, client, Env, Run, serve_client,
  serve, run_of, do_primary, start_sync_monitor_thread, stop_sync_monitor_thread,
}

-- Whether the collector and the monitor run.
pub record Running : Type 0 where
  pub collector : Bool
  pub monitor : Bool

abbrev pub idle : Running
idle = record { collector = false; monitor = false }

-- The services after some calls, and the sockets of the clients that were handled or closed.
pub running : List Call → Running → Running
running [] r = r
running (init_server ∷ cs) r = running cs r
running (stop_collector ∷ cs) r = running cs (record r { collector = false })
running (start_collector pipe n ∷ cs) r = running cs (record r { collector = true })
running (start_monitor port ∷ cs) r = running cs (record r { monitor = true })
running (join_monitor ∷ cs) r = running cs (record r { monitor = false })
running (handle_client s ∷ cs) r = running cs r
running (join_client s ∷ cs) r = running cs r
running (detach_client s ∷ cs) r = running cs r
running (close_socket s ∷ cs) r = running cs r

pub settled : List Call → List ℕ
settled [] = []
settled (init_server ∷ cs) = settled cs
settled (stop_collector ∷ cs) = settled cs
settled (start_collector pipe n ∷ cs) = settled cs
settled (start_monitor port ∷ cs) = settled cs
settled (join_monitor ∷ cs) = settled cs
settled (handle_client s ∷ cs) = s ∷ settled cs
settled (join_client s ∷ cs) = settled cs
settled (detach_client s ∷ cs) = settled cs
settled (close_socket s ∷ cs) = s ∷ settled cs

-- The clients up to the first failure to accept one.
pub clients : List Accepted → List ℕ
clients [] = []
clients (refused ∷ rest) = []
clients (client sock created ∷ rest) = sock ∷ clients rest

-- No client has failed to be accepted.
pub all_accepted : List Accepted → Bool
all_accepted [] = true
all_accepted (refused ∷ rest) = false
all_accepted (client sock created ∷ rest) = all_accepted rest

-- A run that goes on has a server and has accepted all clients; one that ends has the status 1, has
-- stopped the services, and has settled the clients, none without a server.
abbrev pub EndsWell : Env → List Accepted → Option Run → Type 0
EndsWell env accepts none = (env.init_fails ≡ false) × (all_accepted accepts ≡ true)
EndsWell env accepts (some r) =
    (r.status ≡ 1)
    × (running r.calls idle ≡ idle)
    × (settled r.calls ≡ (if env.init_fails then [] else clients accepts))

running-serve_client :
    (is_ptp created : Bool) (sock : ℕ) (cs : List Call) (r : Running)
    → running (serve_client is_ptp sock created ++ cs) r ≡ running cs r
unfolding serve_client running
running-serve_client true true sock cs r = refl
running-serve_client false true sock cs r = refl
running-serve_client is_ptp false sock cs r = refl

settled-serve_client :
    (is_ptp created : Bool) (sock : ℕ) (cs : List Call)
    → settled (serve_client is_ptp sock created ++ cs) ≡ sock ∷ settled cs
unfolding serve_client settled
settled-serve_client true true sock cs = refl
settled-serve_client false true sock cs = refl
settled-serve_client is_ptp false sock cs = refl

-- The loop changes no service, and settles the clients up to its end.
abbrev Serves : List Accepted → List Call → Option (List Call) → Type 0
Serves accepts after none = all_accepted accepts ≡ true
Serves accepts after (some cs) =
    ((r : Running) → running cs r ≡ running after r)
    × (settled after ≡ [] → settled cs ≡ clients accepts)

serve-step :
    (is_ptp created : Bool) (sock : ℕ) (rest : List Accepted) (after : List Call)
    (o : Option (List Call))
    → Serves rest after o
    → Serves
        (client sock created ∷ rest)
        after
        (elim o [ none ↦ none | some calls ↦ some (serve_client is_ptp sock created ++ calls) ])
unfolding clients all_accepted
serve-step is_ptp created sock rest after none h = h
serve-step is_ptp created sock rest after (some cs) (kept, served) = (
  λ r. running-serve_client is_ptp created sock cs r ∙ kept r,
  λ e. settled-serve_client is_ptp created sock cs ∙ ap (λ (ss : List ℕ). sock ∷ ss) (served e),
)

serve-Serves :
    (is_ptp : Bool) (accepts : List Accepted) (after : List Call)
    → Serves accepts after (serve is_ptp accepts after)
unfolding serve clients all_accepted
serve-Serves is_ptp [] after = refl
serve-Serves is_ptp (refused ∷ rest) after = (λ r. refl, λ e. e)
serve-Serves is_ptp (client sock created ∷ rest) after =
    serve-step is_ptp created sock rest after (serve is_ptp rest after)
      (serve-Serves is_ptp rest after)

-- The run with a server and the monitor.
monitored-EndsWell :
    (env : Env) (accepts : List Accepted) (pipe : ℤ) (o : Option (List Call))
    → env.init_fails ≡ false
    → Serves accepts (join_monitor ∷ (stop_collector ∷ [])) o
    → EndsWell env accepts
        (run_of (init_server ∷ (start_collector pipe 110 ∷ (start_monitor 6000 ∷ []))) o)
unfolding run_of running settled
monitored-EndsWell env accepts pipe none works h = (works, h)
monitored-EndsWell env accepts pipe (some cs) works (kept, served) =
    (refl, kept (record { collector = true; monitor = true }), rw works (served refl))

-- The run with a server and without the monitor.
plain-EndsWell :
    (env : Env) (accepts : List Accepted) (pipe : ℤ) (o : Option (List Call))
    → env.init_fails ≡ false
    → Serves accepts (stop_collector ∷ []) o
    → EndsWell env accepts (run_of (init_server ∷ (start_collector pipe 110 ∷ [])) o)
unfolding run_of running settled
plain-EndsWell env accepts pipe none works h = (works, h)
plain-EndsWell env accepts pipe (some cs) works (kept, served) =
    (refl, kept (record { collector = true; monitor = false }), rw works (served refl))

-- Whatever clients come: do_primary only goes on while every client is accepted and init_server has
-- worked. Where it ends, its status is 1, the collector and the monitor that it has started are
-- stopped, and of the clients that were accepted each one has been given to a thread or its socket
-- closed, in the order of their arrival.
pub do_primary-EndsWell :
    (env : Env) (pipe : ℤ) (accepts : List Accepted)
    → EndsWell env accepts (do_primary env pipe accepts)
unfolding do_primary start_sync_monitor_thread stop_sync_monitor_thread running settled
do_primary-EndsWell env pipe accepts = elim (Bool-cases env.init_fails) [
  | inl fails ↦ rw fails (refl, refl, refl)
  | inr works ↦ elim (Bool-cases env.enable_monitoring) [
    | inl on ↦
        rw (works, on)
          (monitored-EndsWell
            (record { is_ptp = env.is_ptp; init_fails = false; enable_monitoring = true }) accepts
            pipe _ refl (serve-Serves env.is_ptp accepts _))
    | inr off ↦
        rw (works, off)
          (plain-EndsWell
            (record { is_ptp = env.is_ptp; init_fails = false; enable_monitoring = false }) accepts
            pipe _ refl (serve-Serves env.is_ptp accepts _))
  ]
]
