-- ===== src/Primary/Monitor.antt =====
-- swgenlock/primary.cpp with message.h and sync_common.cpp: the monitor of a primary, which logs the
-- status that the secondaries send. The results of the system calls are inputs; the log is a list of
-- lines.
pub mod Logged
mod Tests
use software_vsync_modulatio.Prelude.{
  ℕ, zero, suc, ◌+◌, ◌-◌, Bool, true, false, not, Option, none, some, List, [], ◌∷◌, ◌++◌, take,
  set, length, replicate, ◌==◌, ◌&&◌, ◌||◌, if◌then◌else◌,
}
use software_vsync_modulatio.Prelude.Int.{ℤ}
use software_vsync_modulatio.Options.{Text}
use software_vsync_modulatio.Primary.{Header, sync_status_msg}

abbrev pub max_hostname_len : ℕ
max_hostname_len = 64

-- `sync_status_msg`; the name is the array of 64 bytes.
pub record StatusMsg : Type 0 where
  pub header : Header
  pub hostname : List ℕ
  pub pipe : ℤ
  pub delta_us : ℤ
  pub timestamp_us : ℕ

-- `strncpy` of at most `n` bytes into a zeroed array of 64, of a name without a 0.
pub set_sync_status : Text → ℤ → ℤ → ℕ → StatusMsg
set_sync_status node_name p delta ts =
    let name = take (max_hostname_len - 1) node_name in
    record {
      header = sync_status_msg;
      hostname = name ++ replicate (max_hostname_len - length name) 0;
      pipe = p;
      delta_us = delta;
      timestamp_us = ts;
    }

-- `send_sync_status`: the message handed to `sendto`, if any. The address and the host are missing or
-- not, and `ts` is the clock.
pub send_sync_status : Bool → Bool → Bool → Option Text → ℤ → ℤ → ℕ → Option StatusMsg
unfolding set_sync_status
send_sync_status monitoring has_primary makes_socket none p delta ts = none
send_sync_status monitoring has_primary makes_socket (some hostname) p delta ts =
    if monitoring && (has_primary && makes_socket)
    then some (set_sync_status hostname p delta ts)
    else none

-- A turn of the monitor's loop: nothing, an error, a datagram of another length, or a message.
pub data Datagram : Type 0 where
  silent broken other_length : Datagram
  message : StatusMsg → Datagram

-- `timestamp_us,node_name,pipe,delta_us`
pub record Line : Type 0 where
  pub timestamp_us : ℕ
  pub node_name : Text
  pub pipe : ℤ
  pub delta_us : ℤ

-- The bytes of a string up to its 0.
pub c_string : List ℕ → Text
c_string [] = []
c_string (c ∷ cs) = let rest = c_string cs in if c == 0 then [] else c ∷ rest

pub is_status : Header → Bool
is_status Header.ack = false
is_status Header.nack = false
is_status Header.vsync_msg = false
is_status Header.close_msg = false
is_status sync_status_msg = true

pub line_of : StatusMsg → Line
unfolding c_string
line_of m = record {
  timestamp_us = m.timestamp_us;
  node_name = c_string (set m.hostname (max_hostname_len - 1) 0);
  pipe = m.pipe;
  delta_us = m.delta_us;
}

-- The lines of the loop while `g_monitoring` is set.
pub log_lines : List Datagram → List Line
unfolding is_status line_of
log_lines [] = []
log_lines (silent ∷ ds) = log_lines ds
log_lines (broken ∷ ds) = log_lines ds
log_lines (other_length ∷ ds) = log_lines ds
log_lines (message m ∷ ds) =
    let rest = log_lines ds in if is_status m.header then line_of m ∷ rest else rest

-- What the thread leaves: the lines after the header of the file, if there is one, and whether the
-- file and the socket are open.
pub record Monitor : Type 0 where
  pub csv : Option (List Line)
  pub csv_open : Bool
  pub socket_open : Bool

-- `sync_monitor_thread_func`, with whether the file opens and the socket is made and bound.
pub sync_monitor_thread_func : Bool → Bool → Bool → List Datagram → Monitor
unfolding log_lines
sync_monitor_thread_func opens_csv makes_socket binds ds =
    if not opens_csv
    then record { csv = none; csv_open = false; socket_open = false }
    else (if not makes_socket || not binds
        then record { csv = some []; csv_open = false; socket_open = false }
        else record { csv = some (log_lines ds); csv_open = false; socket_open = false })
