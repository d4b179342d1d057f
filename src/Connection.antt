-- ===== src/Connection.antt =====
-- swgenlock/connection.cpp: the connections of a primary and its secondary systems, over TCP and over
-- PTP. What the system calls return is the record `Network`; a text is a C string, the list of its
-- bytes without the last 0.
pub mod Address
pub mod Receive
pub mod Sockets
mod Tests
use software_vsync_modulatio.Prelude.{
  ℕ, Bool, true, false, not, Option, none, some, List, [], take, replicate, ◌&&◌, ◌||◌,
  if◌then◌else◌,
}
use software_vsync_modulatio.Prelude.Int.{ℤ, pos, negsuc}
use software_vsync_modulatio.Prelude.Signed.{◌==ℤ◌}
use software_vsync_modulatio.Options.{Text}
use software_vsync_modulatio.Connection.Address.{str_to_l2_addr}

-- Whether each system call works; `unix_socket` is the socket for the query of the index.
pub record Network : Type 0 where
  pub makes_socket : Bool
  pub sets_option : Bool
  pub binds : Bool
  pub listens : Bool
  pub finds_host : Bool
  pub connects : Bool
  pub makes_unix_socket : Bool
  pub index_of_interface : Option ℤ

-- The members that the operations set; `is_open` is whether the descriptor `sockfd` is open.
pub record Connection : Type 0 where
  pub is_open : Bool
  pub ip_address : Text
  pub iface : Text
  pub server_ip : Text
  pub addr : List ℕ
  pub iface_index : ℤ
  pub destination : Option (List ℕ × ℤ)

-- The two constructors: the arrays hold 31, and 255, bytes and a 0. `ETH_ALEN` is 6; the bytes of
-- the address are set before they are used.
pub new_connection : Option Text → Connection
new_connection ip = record {
  is_open = false;
  ip_address = elim ip [ none ↦ [] | some text ↦ take 31 text ];
  iface = [];
  server_ip = [];
  addr = replicate 6 0;
  iface_index = pos 0;
  destination = none;
}

pub new_ptp_connection : Text → Option Text → Connection
unfolding new_connection
new_ptp_connection ifc mac = record (new_connection (some [])) {
  iface = take 255 ifc;
  server_ip = elim mac [ none ↦ [] | some text ↦ take 255 text ];
}

-- The result is true where that of the code is 0, here and below.
pub open_socket : Network → Connection → Bool × Connection
open_socket net c = (net.makes_socket, record c { is_open = net.makes_socket })

pub close_socket : Connection → Connection
close_socket c = record c { is_open = false }

-- `connection::init_client`, of a server name that may be missing.
pub init_client : Network → Option Text → Connection → Bool × Connection
unfolding open_socket
init_client net none c = (false, c)
init_client net (some name) c =
    let (opened, c') = open_socket net c in (opened && (net.finds_host && net.connects), c')

-- `connection::init_server`
pub init_server : Network → Connection → Bool × Connection
unfolding open_socket close_socket
init_server net c =
    let (opened, c') = open_socket net c in
    if not opened || not net.sets_option
    then (false, c')
    else (if net.binds && net.listens then (true, c') else (false, close_socket c'))

-- `find_iface_index`
pub find_iface_index : Network → ℤ
find_iface_index net =
    if net.makes_unix_socket
    then elim net.index_of_interface [ none ↦ pos 1 | some i ↦ i ]
    else pos 1

-- `ptp_open`, of the name of an interface that may be missing.
pub ptp_open : Network → Option Text → Connection → Bool × Connection
unfolding open_socket find_iface_index
ptp_open net none c = (false, c)
ptp_open net (some name) c =
    let (opened, c') = open_socket net c in
    if not opened
    then (false, c')
    else (let found : Connection = record c' { iface_index = find_iface_index net } in
        if find_iface_index net ==ℤ negsuc 0 then (false, found) else (net.binds, found))

-- `ptp_connection::init_client` and `ptp_connection::init_server`
pub ptp_init_client : Network → Connection → Bool × Connection
unfolding ptp_open
ptp_init_client net c =
    let (opened, c') = ptp_open net (some c.iface) c in
    let (parsed, addr) = str_to_l2_addr c'.server_ip c'.addr in
    if not opened
    then (false, c')
    else (if parsed
        then (true, record c' { addr = addr; destination = some (addr, c'.iface_index) })
        else (false, record c' { addr = addr }))

pub ptp_init_server : Network → Connection → Bool × Connection
unfolding ptp_open
ptp_init_server net c = ptp_open net (some c.iface) c
