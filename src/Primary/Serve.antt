-- ===== src/Primary/Serve.antt =====
-- swgenlock/primary.cpp: what a primary system does from its start to its end. The calls with effects
-- outside are a list, in order.
pub mod Ends
mod Tests
use software_vsync_modulatio.Prelude.{
  ℕ, ◌+◌, Bool, true, false, Option, none, some, List, [], ◌∷◌, ◌++◌, if◌then◌else◌,
}
use software_vsync_modulatio.Prelude.Int.{ℤ}
use software_vsync_modulatio.Primary.{max_timestamps}

-- `handle_client` is the thread of a client, which runs `do_msg` on its socket.
pub data Call : Type 0 where
  init_server stop_collector : Call
  start_collector : ℤ → ℕ → Call
  start_monitor : ℕ → Call
  join_monitor : Call
  handle_client join_client detach_client close_socket : ℕ → Call

-- A turn of the loop: `accept_client` fails, or it gives a socket, and a thread is made or not.
pub data Accepted : Type 0 where
  refused : Accepted
  client : ℕ → Bool → Accepted

-- Whether the connection is of type PTP, `init_server` fails and `g_enable_monitoring` is set.
pub record Env : Type 0 where
  pub is_ptp : Bool
  pub init_fails : Bool
  pub enable_monitoring : Bool

pub record Run : Type 0 where
  pub status : ℕ
  pub calls : List Call

abbrev pub monitor_port_offset : ℕ
monitor_port_offset = 1000

-- `start_sync_monitor_thread` and `stop_sync_monitor_thread`, with `g_monitoring`; a thread that was
-- started can be joined.
pub start_sync_monitor_thread : ℕ → Bool → Bool × List Call
start_sync_monitor_thread primary_port true = (true, [])
start_sync_monitor_thread primary_port false =
    (true, start_monitor (primary_port + monitor_port_offset) ∷ [])

pub stop_sync_monitor_thread : Bool → Bool × List Call
stop_sync_monitor_thread true = (false, join_monitor ∷ [])
stop_sync_monitor_thread false = (false, [])

-- What is done with a client.
pub serve_client : Bool → ℕ → Bool → List Call
serve_client is_ptp sock true =
    handle_client sock ∷ ((if is_ptp then join_client sock else detach_client sock) ∷ [])
serve_client is_ptp sock false = close_socket sock ∷ []

-- The loop over the clients, with what is done after it; `none` while it goes on.
pub serve : Bool → List Accepted → List Call → Option (List Call)
unfolding serve_client
serve is_ptp [] after = none
serve is_ptp (refused ∷ rest) after = some after
serve is_ptp (client sock created ∷ rest) after = elim (serve is_ptp rest after) [
  | none ↦ none
  | some calls ↦ some (serve_client is_ptp sock created ++ calls)
]

-- The run, with the calls before the loop; the status is 1 when the loop ends.
pub run_of : List Call → Option (List Call) → Option Run
run_of before none = none
run_of before (some calls) = some (record { status = 1; calls = before ++ calls })

-- `do_primary`, from `g_monitoring` unset; the buffer of the collector has ten timestamps more than
-- an answer.
pub do_primary : Env → ℤ → List Accepted → Option Run
unfolding run_of serve start_sync_monitor_thread stop_sync_monitor_thread
do_primary env pipe accepts =
    if env.init_fails
    then some (record { status = 1; calls = init_server ∷ [] })
    else (let (monitoring, started) : Bool × List Call =
          if env.enable_monitoring then start_sync_monitor_thread 5000 false else (false, []) in
        let (off, stopped) : Bool × List Call =
          if env.enable_monitoring then stop_sync_monitor_thread monitoring else (false, []) in
        run_of (init_server ∷ (start_collector pipe (max_timestamps + 10) ∷ started))
          (serve env.is_ptp accepts (stopped ++ (stop_collector ∷ []))))
