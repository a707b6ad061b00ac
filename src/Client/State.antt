-- ===== src/Client/State.antt =====
-- The state of a client session, its handle, and the handlers of its packets (src/protocol/client.rs).
use tws_rust.Prelude.{
  ℕ, List, [], ◌∷◌, Bool, true, false, if◌then◌else◌, Option, none, some, Result, ok, err,
}
use tws_rust.Prelude.Int.{ℤ}
use tws_rust.Text.Bytes.{Bytes}
use tws_rust.Net.Addr.{SocketAddr}
use tws_rust.Text.Bytes.{bytes_key}
use tws_rust.Map.{Map, get, contains_key, insert, remove}
use tws_rust.Protocol.Auth.{Crypto}
use tws_rust.Protocol.Packet.{ConnectionState, closed, is_ok_state, is_closed}
use tws_rust.Protocol.State.{connect_state_build}
use tws_rust.Protocol.Connect.{connect_build, udp_connect_build}
use tws_rust.Protocol.Handshake.{handshake_build}
use tws_rust.Util.RandStr.{rand_str}
use tws_rust.Util.SharedStream
use tws_rust.Session.Message.{OwnedMessage, text}
use tws_rust.Session.Connection
use tws_rust.Session.ReadThrottle.{Core, UdpConnection, modify_handle}
use tws_rust.Session.Service.{
  Session, insert_connection, feed_ws, with_udp, feed_tcp, on_pause_resume, close_conn,
}
use tws_rust.Udp.Handle

-- The options that decide what a session does. `timeout` is in milliseconds.
pub record ClientOption : Type 0 where
  pub passwd : Bytes
  pub remote : SocketAddr
  pub timeout : ℕ

-- `PendingClientConnection`: a connection that waits for the server's answer.
pub record Pending : Type 0 where
  pub created : ℕ
  pub conn_id : Bytes

pub record Client : Type 0 where
  pub option : ClientOption
  pub session : Session
  pub connected : Bool
  pub pending_connections : Map Bytes Pending

-- `none` is a panic.
abbrev pub Outcome : Type 0
Outcome = Option Client

abbrev pub with_session : Session → Client → Client
with_session session s = record s { session = session }

-- `ClientSession::new`. A session handle is kept outside, which holds a writer, as the heartbeat agent
-- does. The client's UDP socket, whose handle all UDP connections share, has the number 0; of other
-- sessions that use it nothing is said here.
unfoldable pub new : ℕ → ClientOption → Client
unfolding SharedStream.new SharedStream.clone Handle.new
new now option = record {
  option = option;
  session = record {
    core = record {
      paused = false;
      connections = [];
      udp_connections = [];
      handles = (0, Handle.new) ∷ [];
      pause_state = [];
    };
    writer = SharedStream.clone (SharedStream.clone (SharedStream.new OwnedMessage Core now));
    received = true;
    detached = [];
  };
  connected = false;
  pending_connections = [];
}

-- `unwrap` on what a builder gives.
abbrev pub unwrap_ok : {A : Type 0} → Result A → (A → Outcome) → Outcome
unwrap_ok (err message) k = none
unwrap_ok (ok a) k = k a

abbrev pub unwrap : {A : Type 0} → Option A → (A → Outcome) → Outcome
unwrap none k = none
unwrap (some a) k = k a

-- `run`, once the WebSocket is there: the handshake first, then the service.
unfoldable pub start : Crypto → ℤ → ℕ → Client → Outcome
unfolding SharedStream.run
start c time now s = unwrap_ok (handshake_build c s.option.passwd time s.option.remote) (λ packet.
    let session = feed_ws now (text packet) s.session in
    some (with_session (record session { writer = SharedStream.run session.writer }) s))

-- `ClientSessionHandle`. `draws` are the numbers that the generator gives.
unfoldable pub is_connected : Client → Bool
is_connected s = s.connected

unfoldable pub add_pending_connection : Crypto → ℕ → List ℕ → Client → Outcome
add_pending_connection c now draws s = unwrap (rand_str draws) (λ conn_id.
    unwrap_ok (connect_build c s.option.passwd conn_id) (λ packet. some (record s {
      pending_connections =
          insert conn_id (record { created = now; conn_id = conn_id }) s.pending_connections;
      session = feed_ws now (text packet) s.session;
    })))

unfoldable pub add_udp_connection : Crypto → ℕ → List ℕ → SocketAddr → Client → Outcome
add_udp_connection c now draws addr s = unwrap (rand_str draws) (λ conn_id.
    unwrap_ok (udp_connect_build c s.option.passwd conn_id) (λ packet. some (
      with_session
        (feed_ws now (text packet) (
          with_udp
            (insert conn_id (record { handle = 0; addr = some addr })
              s.session.core.udp_connections)
            s.session))
        s)))

unfoldable pub on_unknown : Client → Client
on_unknown s = if s.connected then s else record s { connected = true }

-- A pending connection becomes an active one.
unfoldable pub activate_connection : ℕ → Bytes → Client → Outcome
unfolding Connection.create insert_connection
activate_connection now conn_id s = unwrap (get conn_id s.pending_connections) (λ p.
    some (record s {
      pending_connections = remove conn_id s.pending_connections;
      session = insert_connection conn_id (Connection.create p.conn_id now) s.session;
    }))

-- `close_conn`, on an active connection or a pending one.
unfoldable pub close_any : ℕ → Bytes → Client → Client
close_any now conn_id s =
    if contains_key conn_id s.session.core.connections
    then with_session (close_conn now conn_id s.session) s
    else if contains_key conn_id s.pending_connections
    then record s { pending_connections = remove conn_id s.pending_connections }
    else s

unfoldable pub on_connect_state : ℕ → Bytes → ConnectionState → Client → Outcome
unfolding activate_connection close_any
on_connect_state now conn_id state s =
    let s' = with_session (on_pause_resume conn_id state s.session) s in
    let closes = some (close_any now conn_id s') in
    let activates = activate_connection now conn_id s' in
    if is_closed state
    then closes
    else if is_ok_state state
    then if contains_key conn_id s'.pending_connections
      then activates
      else some
          (with_session (feed_ws now (text (connect_state_build conn_id closed)) s'.session) s')
    else some s'

unfoldable pub on_data : ℕ → Bytes → Bytes → Client → Client
on_data now conn_id bytes s = with_session (feed_tcp now conn_id bytes s.session) s

-- A connection's `addr` is always set on the client.
abbrev pub send_at : Bytes → ℕ → Option SocketAddr → Core → Core
send_at bytes handle none core = core
send_at bytes handle (some addr) core = record core {
  handles = modify_handle handle (Handle.send_to addr bytes) core.handles;
}

abbrev pub send_udp_to : Bytes → Option UdpConnection → Core → Core
send_udp_to bytes none core = core
send_udp_to bytes (some u) core = send_at bytes u.handle u.addr core

unfoldable pub on_udp_data : Bytes → Bytes → Client → Client
on_udp_data conn_id bytes s =
    let core = s.session.core in
    with_session
      (record s.session { core = send_udp_to bytes (get conn_id core.udp_connections) core }) s
