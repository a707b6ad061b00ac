-- ===== src/Udp/Datagram.antt =====
-- `UdpDatagram` of src/protocol/udp.rs: a socket whose packets are sorted into one stream for each peer.
pub mod Inverse
pub mod Sound
pub mod Run
pub mod Peers
pub mod Idle
pub mod Prepared
pub mod Empty
pub mod Refines
pub mod Sending
pub mod Visitor
use tws_rust.Prelude.{
  ◌++◌, ℕ, ◌+◌, ◌-◌, ◌^◌, List, [], ◌∷◌, Bool, true, false, not, ◌&&◌, if◌then◌else◌, leb, Option,
  none, some,
}
use tws_rust.Prelude.Equality.{nat_key}
use tws_rust.Text.Bytes.{Bytes}
use tws_rust.Net.Addr.{SocketAddr, IpAddr, v4, v6, addr_key}
use tws_rust.Map.{Map, get, contains_key, insert, remove, modify}
use tws_rust.Util.Throttling.{Poll, ready, ended, not_ready, failed}
use tws_rust.Util.SharedStream.{first_task}
use tws_rust.Udp.Handle.{Handle}
use tws_rust.Udp.Handle
use tws_rust.Udp.Stream.{UdpState, write}
use tws_rust.Udp.Stream

abbrev pub usize_max : ℕ
usize_max = 2 ^ 64 - 1

-- A stream shares its state with the socket for as long as the socket has it in `conn_states`; `orphans` are
-- the states that only their streams have.
pub record Datagram : Type 0 where
  pub conn_states : Map ℕ UdpState
  pub conn_states_reverse_map : Map SocketAddr ℕ
  pub handle : Handle
  pub counter : ℕ
  pub close_if_no_conn : Bool
  pub timeout : ℕ
  pub orphans : List UdpState

unfoldable pub wrap_socket : ℕ → Bool → Datagram
unfolding Handle.new
wrap_socket timeout close_if_no_conn = record {
  conn_states = [];
  conn_states_reverse_map = [];
  handle = Handle.new;
  counter = 0;
  close_if_no_conn = close_if_no_conn;
  timeout = timeout;
  orphans = [];
}

unfoldable pub add_conn : UdpState → Datagram → Datagram
add_conn conn d = record d {
  conn_states = insert d.counter conn d.conn_states;
  conn_states_reverse_map = insert conn.remote d.counter d.conn_states_reverse_map;
  counter = if leb usize_max d.counter then 0 else d.counter + 1;
}

-- The connection is polled once more, and its stream closes itself.
abbrev pub drop_conn : ℕ → Option UdpState → Datagram → Datagram
drop_conn id none d = d
drop_conn id (some conn) d = record d {
  conn_states = remove id d.conn_states;
  conn_states_reverse_map = remove conn.remote d.conn_states_reverse_map;
  orphans = Stream.wake conn ∷ d.orphans;
}

unfoldable pub remove_conn : ℕ → Datagram → Datagram
remove_conn id d = drop_conn id (get id d.conn_states) d

-- `connect`, once the socket is bound and connected: a socket with one connection, which is the client's.
unfoldable pub connect : ℕ → SocketAddr → ℕ → Datagram
unfolding wrap_socket add_conn Stream.new
connect now addr timeout = add_conn (Stream.new now addr timeout) (wrap_socket timeout true)

unfoldable pub build_unspecified_addr : SocketAddr → SocketAddr
build_unspecified_addr addr = elim addr.ip [
  | v4 a b c d ↦ record { ip = v4 0 0 0 0; port = 0 }
  | v6 segments ↦ record { ip = v6 (0 ∷ 0 ∷ 0 ∷ 0 ∷ 0 ∷ 0 ∷ 0 ∷ 0 ∷ []); port = 0 }
]

unfoldable pub touch : ℕ → UdpState → UdpState
touch now s = record s { last_activity = now }

-- A packet that is sent counts as activity of its connection: of the target's, or of number 0.
abbrev pub touch_id : ℕ → Option ℕ → Datagram → Datagram
touch_id now none d = d
touch_id now (some id) d = record d { conn_states = modify id (touch now) d.conn_states }

abbrev pub touch_target : ℕ → Option SocketAddr → Datagram → Datagram
touch_target now none d = touch_id now (some 0) d
touch_target now (some addr) d = touch_id now (get addr d.conn_states_reverse_map) d

-- Where the first packet of the queue is tried, and `sent` says whether the socket took it.
abbrev pub try_send : ℕ → Bool → List (Option SocketAddr × Bytes) → Datagram → Datagram
try_send now sent [] d = d
try_send now sent ((target, bytes) ∷ rest) d =
    let d' = touch_target now target d in
    record d' { handle = record d'.handle { buf = if sent then rest else d'.handle.buf } }

-- The first part of `poll`.
unfoldable pub flush : ℕ → ℕ → Bool → Datagram → Datagram
unfolding touch
flush now current sent d =
    try_send now sent d.handle.buf
      (record d { handle = record d.handle { task = first_task d.handle.task current } })

-- The second part: the connections with no activity for `timeout` go.
abbrev pub is_idle : ℕ → ℕ → UdpState → Bool
is_idle now timeout s = leb timeout (now - s.last_activity)

unfoldable pub idle_ids : ℕ → ℕ → Map ℕ UdpState → List ℕ
idle_ids now timeout [] = []
idle_ids now timeout ((id, s) ∷ m) =
    let rest = idle_ids now timeout m in if is_idle now timeout s then id ∷ rest else rest

unfoldable pub remove_conns : List ℕ → Datagram → Datagram
unfolding remove_conn
remove_conns [] d = d
remove_conns (id ∷ ids) d = remove_conns ids (remove_conn id d)

unfoldable pub purge : ℕ → Datagram → Datagram
unfolding idle_ids remove_conns
purge now d = remove_conns (idle_ids now d.timeout d.conn_states) d

-- What the socket has for us: nothing yet, an error, or a packet with its sender.
pub data Received : Type 0 where
  nothing broken : Received
  packet : Bytes → SocketAddr → Received

-- A new stream is handed out with its peer's address and its number. `none` is a panic.
abbrev pub Outcome : Type 0
Outcome = Option (Poll (SocketAddr × ℕ) × Datagram)

-- `task::current().notify()`
abbrev pub notify_current : ℕ → Datagram → Datagram
notify_current current d = record d {
  handle = record d.handle { notified = d.handle.notified ++ current ∷ [] };
}

unfoldable pub accept : ℕ → Bytes → UdpState → UdpState
unfolding write Stream.wake
accept now bytes s = Stream.wake (write now bytes s)

-- `self.conn_states[&id]` panics if there is no such connection.
abbrev pub deliver_to : ℕ → ℕ → Bytes → ℕ → Option UdpState → Datagram → Outcome
deliver_to now current bytes id none d = none
deliver_to now current bytes id (some s) d = some (
  not_ready,
  notify_current current (record d {
    conn_states =
        if d.handle.paused then d.conn_states else modify id (accept now bytes) d.conn_states;
  }),
)

abbrev pub deliver : ℕ → ℕ → Bytes → SocketAddr → Option ℕ → Datagram → Outcome
deliver now current bytes addr (some id) d =
    deliver_to now current bytes id (get id d.conn_states) d
deliver now current bytes addr none d =
    some (ready (addr, d.counter), add_conn (write now bytes (Stream.new now addr d.timeout)) d)

-- The last part of `poll`. The read buffer has room for the largest packet.
unfoldable pub receive : ℕ → ℕ → Received → Datagram → Outcome
unfolding add_conn write Stream.new accept
receive now current nothing d = some (not_ready, d)
receive now current broken d = some (failed, d)
receive now current (packet bytes addr) d =
    deliver now current bytes addr (get addr d.conn_states_reverse_map) d

abbrev pub is_empty : Map ℕ UdpState → Bool
is_empty [] = true
is_empty (x ∷ m) = false

abbrev pub is_closed : Datagram → Bool
is_closed d = d.close_if_no_conn && is_empty d.conn_states

unfoldable pub poll : ℕ → ℕ → Bool → Received → Datagram → Outcome
unfolding flush purge receive
poll now current sent received d =
    let d' = purge now (flush now current sent d) in
    if is_closed d' then some (ended, d') else receive now current received d'
