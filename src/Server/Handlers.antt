-- ===== src/Server/Handlers.antt =====
-- The dispatch of messages and packets on the server (`on_message` and `on_packet` of
-- src/protocol/shared.rs), and what the tasks of its connections do to it later.
use tws_rust.Prelude.{ℕ, List, [], ◌∷◌, Bool, true, false, if◌then◌else◌, Option, none, some}
use tws_rust.Prelude.Int.{ℤ}
use tws_rust.Text.Bytes.{Bytes, bytes_eq}
use tws_rust.Text.Bytes.{bytes_key}
use tws_rust.Map.{remove}
use tws_rust.Protocol.Auth.{Crypto}
use tws_rust.Protocol.Packet.{
  Packet, handshake, connect, udp_connect, connection_state, payload, udp_payload, unrecognized,
  ok_state, closed,
}
use tws_rust.Protocol.Dispatch.{parse_packet}
use tws_rust.Protocol.State.{connect_state_build}
use tws_rust.Session.Message.{OwnedMessage, text, binary, ping, pong, close}
use tws_rust.Session.Connection
use tws_rust.Session.Service.{
  insert_connection, forward_tcp, forward_udp, feed_ws, close_ws, with_udp, close_conn,
  drop_connections,
}
use tws_rust.Server.State.{
  Server, Outcome, with_session, unwrap, on_unknown, on_handshake, on_connect, on_udp_connect,
  on_connect_state, on_data, on_udp_data,
}

unfoldable pub on_packet : ℕ → Bool → Packet → Server → Outcome
unfolding on_unknown on_handshake on_connect on_udp_connect on_connect_state on_data on_udp_data
on_packet now bound (handshake addr) s = on_handshake now addr s
on_packet now bound (connect conn_id) s = on_connect conn_id s
on_packet now bound (udp_connect conn_id) s = on_udp_connect bound conn_id s
on_packet now bound (connection_state conn_id state) s = on_connect_state now conn_id state s
on_packet now bound (payload conn_id bytes) s = on_data now conn_id bytes s
on_packet now bound (udp_payload conn_id bytes) s = on_udp_data conn_id bytes s
on_packet now bound unrecognized s = on_unknown s

-- `time` is the wall clock that handshakes are compared with.
unfoldable pub on_message : Crypto → ℤ → ℕ → Bool → OwnedMessage → Server → Outcome
unfolding on_packet
on_message c time now bound (text bytes) s =
    on_packet now bound (parse_packet c s.option.passwd time bytes) s
on_message c time now bound (binary bytes) s =
    on_packet now bound (parse_packet c s.option.passwd time bytes) s
on_message c time now bound (ping bytes) s =
    some (with_session (feed_ws now (pong bytes) s.session) s)
on_message c time now bound (pong bytes) s =
    some (with_session (record s.session { received = true }) s)
on_message c time now bound close s = some (with_session (close_ws s.session) s)

-- The first task for an identifier, taken out of those that are connecting.
unfoldable pub take_task : Bytes → List Bytes → Option (List Bytes)
take_task id [] = none
take_task id (j ∷ rest) =
    let later = take_task id rest in
    if bytes_eq j id then some rest else elim later [ none ↦ none | some l ↦ some (j ∷ l) ]

-- The task of `on_connect` ends: with a connection, which is announced and stored, or with an error.
abbrev pub finish_connect : ℕ → Bytes → Bool → Option (List Bytes) → Server → Outcome
finish_connect now conn_id success none s = some s
finish_connect now conn_id true (some rest) s = unwrap s.client (
    unwrap s.remote (
      let session = feed_ws now (text (connect_state_build conn_id ok_state)) s.session in
      some (record s {
        session = insert_connection conn_id (Connection.create conn_id now) session;
        connecting = rest;
      })))
finish_connect now conn_id false (some rest) s = some (record s {
  session = feed_ws now (text (connect_state_build conn_id closed)) s.session;
  connecting = rest;
})

unfoldable pub on_connected : ℕ → Bytes → Bool → Server → Outcome
on_connected now conn_id success s =
    finish_connect now conn_id success (take_task conn_id s.connecting) s

-- `RemoteConnectionHandler` and `RemoteUdpConnectionHandler`.
unfoldable pub on_remote_data : ℕ → Bytes → Bytes → Server → Server
on_remote_data now conn_id bytes s = with_session (forward_tcp now conn_id bytes s.session) s

unfoldable pub on_remote_close : ℕ → Bytes → Server → Server
on_remote_close now conn_id s = with_session (close_conn now conn_id s.session) s

unfoldable pub on_remote_udp_data : ℕ → Bytes → Bytes → Server → Server
on_remote_udp_data now conn_id bytes s = with_session (forward_udp now conn_id bytes s.session) s

unfoldable pub on_remote_udp_close : Bytes → Server → Server
on_remote_udp_close conn_id s =
    with_session (with_udp (remove conn_id s.session.core.udp_connections) s.session) s

-- The clean-up of `run` when the session is over.
unfoldable pub on_session_end : Server → Server
on_session_end s = with_session (drop_connections s.session) s
