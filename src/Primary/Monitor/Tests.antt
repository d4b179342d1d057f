-- ===== src/Primary/Monitor/Tests.antt =====
-- The monitor with two reports, a status whose name has no 0, and noise between them.
use software_vsync_modulatio.Prelude.{
  ◌≡◌, refl, true, false, some, List, [], ◌∷◌, map, replicate, arith,
}
use software_vsync_modulatio.Prelude.Int.{pos, negsuc}
use software_vsync_modulatio.Primary.{Header, sync_status_msg}
use software_vsync_modulatio.Primary.Monitor.{
  Line, StatusMsg, silent, other_length, message, sync_monitor_thread_func,
}
use software_vsync_modulatio.Primary.Monitor.Logged.{
  Arrival, report, other, datagram, Logs, monitor_thread-reported,
}

-- A message whose name fills its array.
abbrev filled : Header → StatusMsg
filled h = record {
  header = h;
  hostname = replicate 64 b'y';
  pipe = pos 2;
  delta_us = pos 3;
  timestamp_us = 8;
}

abbrev arrivals : List Arrival
arrivals =
    report (record {
      node_name = b's' ∷ b'1' ∷ [];
      pipe = pos 1;
      delta_us = negsuc 41;
      timestamp_us = 7;
    })
    ∷ other silent
    ∷ other (message (filled Header.nack))
    ∷ other (message (filled sync_status_msg))
    ∷ other other_length
    ∷ report
        (record { node_name = replicate 3 b'x'; pipe = pos 0; delta_us = pos 12; timestamp_us = 9 })
    ∷ []

monitor_thread-reported_example :
    (lines : List Line) × Logs arrivals lines
    × (sync_monitor_thread_func true true true (map datagram arrivals)
        ≡ record { csv = some lines; csv_open = false; socket_open = false })
monitor_thread-reported_example = monitor_thread-reported arrivals (
  (omega arith, (omega arith, tt)),
  (tt, (refl, (refl, (tt, ((omega arith, (omega arith, (omega arith, tt))), tt))))),
)
