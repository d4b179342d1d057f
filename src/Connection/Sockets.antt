-- ===== src/Connection/Sockets.antt =====
-- What a connection leaves open when it fails, and the index of an interface that is not known.
use software_vsync_modulatio.Prelude.{◌≡◌, true, none, some, not, ◌&&◌, ◌||◌, arith}
use software_vsync_modulatio.Prelude.Int.{pos}
use software_vsync_modulatio.Options.{Text}
use software_vsync_modulatio.Connection.{
  Network, Connection, open_socket, close_socket, init_client, init_server, find_iface_index,
  ptp_open, ptp_init_server,
}

-- A server that fails to start has its socket open only where the option of the socket was refused.
pub init_server-is_open :
    (net : Network) (c : Connection)
    → (init_server net c).1.is_open
      ≡ (net.makes_socket && (not net.sets_option || (net.binds && net.listens)))
unfolding init_server open_socket close_socket
init_server-is_open net c = ground arith

-- A client over TCP that fails leaves its socket open, if there was a name and a socket.
pub init_client-is_open :
    (net : Network) (name : Text) (c : Connection)
    → (init_client net (some name) c).1.is_open ≡ net.makes_socket
unfolding init_client open_socket
init_client-is_open net name c = ground arith

-- A PTP server for an interface that is not known starts with the interface of index 1.
pub ptp_init_server-unknown :
    (net : Network) (c : Connection)
    → net.makes_socket ≡ true
    → net.binds ≡ true
    → net.index_of_interface ≡ none
    → ((ptp_init_server net c).0 ≡ true) × ((ptp_init_server net c).1.iface_index ≡ pos 1)
unfolding ptp_init_server ptp_open find_iface_index open_socket
ptp_init_server-unknown net c makes binds unknown = ground arith
