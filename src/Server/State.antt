-- ===== src/Server/State.antt =====
-- The state of a server session, and the handlers of its packets (src/protocol/server.rs).
use tws_rust.Prelude.{
  ℕ, List, [], ◌∷◌, ◌++◌, Bool, true, false, not, if◌then◌else◌, length, Option, none, some,
}
use tws_rust.Text.Bytes.{Bytes, codes}
use tws_rust.Net.Addr.{SocketAddr, contains_addr}
use tws_rust.Text.Bytes.{bytes_key}
use tws_rust.Map.{get, insert}
use tws_rust.Protocol.Packet.{ConnectionState, is_closed}
use tws_rust.Util.SharedStream
use tws_rust.Session.Message.{OwnedMessage, text}
use tws_rust.Session.ReadThrottle.{Core, UdpConnection, modify_handle}
use tws_rust.Session.Service.{Session, feed_ws, close_ws, feed_tcp, on_pause_resume, close_conn}
use tws_rust.Udp.Handle

-- The options that decide what a session does.
pub record ServerOption : Type 0 where
  pub passwd : Bytes
  pub no_udp : Bool
  pub accept_remotes : List SocketAddr

-- `connecting` holds the connections that a spawned task is opening.
pub record Server : Type 0 where
  pub option : ServerOption
  pub session : Session
  pub remote : Option SocketAddr
  pub client : Option SocketAddr
  pub handshaked : Bool
  pub connecting : List Bytes

-- `none` is a panic, which ends the program (src/main.rs installs such a hook).
abbrev pub Outcome : Type 0
Outcome = Option Server

abbrev pub empty_core : Core
empty_core = record {
  paused = false;
  connections = [];
  udp_connections = [];
  handles = [];
  pause_state = [];
}

-- `ServerSession::new`, and the client's address that `run` sets.
unfoldable pub new : ℕ → ServerOption → SocketAddr → Server
unfolding SharedStream.new SharedStream.run SharedStream.clone
new now option client = record {
  option = option;
  session = record {
    core = empty_core;
    writer = SharedStream.run (SharedStream.clone (SharedStream.new OwnedMessage Core now));
    received = true;
    detached = [];
  };
  remote = none;
  client = some client;
  handshaked = false;
  connecting = [];
}

abbrev pub with_session : Session → Server → Server
with_session session s = record s { session = session }

-- `state.client.unwrap()` and the like, in a log line or a call.
abbrev pub unwrap : {A : Type 0} → Option A → Outcome → Outcome
unwrap none k = none
unwrap (some a) k = k

-- `if !self.check_handshaked() { return; }` before `k`. The log line reads the client's address.
unfoldable pub check_handshaked : Server → Outcome → Outcome
check_handshaked s k =
    if s.handshaked then k else unwrap s.client (some (with_session (close_ws s.session) s))

unfoldable pub on_unknown : Server → Outcome
on_unknown s = check_handshaked s (some s)

abbrev pub allows : List SocketAddr → SocketAddr → Bool
allows [] addr = true
allows (x ∷ xs) addr = contains_addr (x ∷ xs) addr

-- On a remote that is not allowed, `check_handshaked` borrows the state while it is borrowed mutably,
-- which panics.
unfoldable pub on_handshake : ℕ → SocketAddr → Server → Outcome
on_handshake now addr s = unwrap s.client (
    if not (allows s.option.accept_remotes addr)
    then none
    else some (record s {
      remote = some addr;
      handshaked = true;
      session = feed_ws now (text (codes "hello")) s.session;
    }))

-- A task is spawned to connect to the remote.
unfoldable pub on_connect : Bytes → Server → Outcome
on_connect conn_id s =
    check_handshaked s (unwrap s.remote (some (record s { connecting = conn_id ∷ s.connecting })))

-- `bound` says whether a UDP socket could be had.
unfoldable pub on_udp_connect : Bool → Bytes → Server → Outcome
unfolding Handle.new
on_udp_connect bound conn_id s = check_handshaked s (
    if s.option.no_udp
    then some s
    else unwrap s.remote (
        if bound
        then unwrap s.client (
            let core = s.session.core in
            let fresh = length core.handles in
            some (
              with_session
                (record s.session {
                  core = record core {
                    udp_connections =
                        insert conn_id (record { handle = fresh; addr = none })
                          core.udp_connections;
                    handles = core.handles ++ (fresh, Handle.new) ∷ [];
                  };
                })
                s))
        else some s))

unfoldable pub on_connect_state : ℕ → Bytes → ConnectionState → Server → Outcome
on_connect_state now conn_id state s = check_handshaked s (
    let session = on_pause_resume conn_id state s.session in
    some (with_session (if is_closed state then close_conn now conn_id session else session) s))

unfoldable pub on_data : ℕ → Bytes → Bytes → Server → Outcome
on_data now conn_id bytes s =
    check_handshaked s (some (with_session (feed_tcp now conn_id bytes s.session) s))

abbrev pub send_udp : Bytes → Option UdpConnection → Core → Core
send_udp bytes none core = core
send_udp bytes (some u) core = record core {
  handles = modify_handle u.handle (Handle.send bytes) core.handles;
}

unfoldable pub on_udp_data : Bytes → Bytes → Server → Outcome
on_udp_data conn_id bytes s = check_handshaked s (
    let core = s.session.core in
    some (
      with_session
        (record s.session { core = send_udp bytes (get conn_id core.udp_connections) core }) s))
