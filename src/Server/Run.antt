-- ===== src/Server/Run.antt =====
-- What happens to a session of src/protocol/server.rs, in any order.
use tws_rust.Prelude.{ℕ, List, [], ◌∷◌, Bool, false, not, Option, none, some}
use tws_rust.Prelude.Int.{ℤ}
use tws_rust.Text.Bytes.{Bytes}
use tws_rust.Net.Addr.{SocketAddr}
use tws_rust.Protocol.Auth.{Crypto}
use tws_rust.Protocol.Packet.{
  Packet, handshake, connect, udp_connect, connection_state, payload, udp_payload, unrecognized,
}
use tws_rust.Protocol.Dispatch.{parse_packet}
use tws_rust.Session.Message.{OwnedMessage, text, binary, ping, pong, close}
use tws_rust.Session.Service.{poll_ws}
use tws_rust.Server.State.{Server, Outcome, allows, with_session}
use tws_rust.Server.Handlers.{
  on_message, on_connected, on_remote_data, on_remote_close, on_remote_udp_data,
  on_remote_udp_close, on_session_end,
}

-- `messages time now bound msg`, `connected now conn_id success`, `writes now task`, …
pub data Event : Type 0 where
  messages : ℤ → ℕ → Bool → OwnedMessage → Event
  connected : ℕ → Bytes → Bool → Event
  remote_data remote_udp_data : ℕ → Bytes → Bytes → Event
  remote_close : ℕ → Bytes → Event
  remote_udp_close : Bytes → Event
  writes : ℕ → ℕ → Event
  ends : Event

unfoldable pub step : Crypto → Event → Server → Outcome
unfolding on_message on_connected on_remote_data on_remote_close on_remote_udp_data
    on_remote_udp_close on_session_end poll_ws
step c (messages time now bound msg) s = on_message c time now bound msg s
step c (connected now conn_id success) s = on_connected now conn_id success s
step c (remote_data now conn_id bytes) s = some (on_remote_data now conn_id bytes s)
step c (remote_udp_data now conn_id bytes) s = some (on_remote_udp_data now conn_id bytes s)
step c (remote_close now conn_id) s = some (on_remote_close now conn_id s)
step c (remote_udp_close conn_id) s = some (on_remote_udp_close conn_id s)
step c (writes now current) s = some (with_session (poll_ws now current s.session).1 s)
step c ends s = some (on_session_end s)

-- A run that panics stops.
abbrev pub and_then : Outcome → (Server → Outcome) → Outcome
and_then none next = none
and_then (some s) next = next s

unfoldable pub run : Crypto → List Event → Server → Outcome
unfolding step
run c [] s = some s
run c (ev ∷ evs) s = and_then (step c ev s) (run c evs)

-- The address of a handshake.
abbrev pub target : Packet → Option SocketAddr
target (handshake addr) = some addr
target (connect conn_id) = none
target (udp_connect conn_id) = none
target (connection_state conn_id state) = none
target (payload conn_id bytes) = none
target (udp_payload conn_id bytes) = none
target unrecognized = none

abbrev pub message_target : Crypto → Bytes → ℤ → OwnedMessage → Option SocketAddr
message_target c passwd time (text bytes) = target (parse_packet c passwd time bytes)
message_target c passwd time (binary bytes) = target (parse_packet c passwd time bytes)
message_target c passwd time (ping bytes) = none
message_target c passwd time (pong bytes) = none
message_target c passwd time close = none

abbrev pub event_target : Crypto → Bytes → Event → Option SocketAddr
event_target c passwd (messages time now bound msg) = message_target c passwd time msg
event_target c passwd (connected now conn_id success) = none
event_target c passwd (remote_data now conn_id bytes) = none
event_target c passwd (remote_udp_data now conn_id bytes) = none
event_target c passwd (remote_close now conn_id) = none
event_target c passwd (remote_udp_close conn_id) = none
event_target c passwd (writes now current) = none
event_target c passwd ends = none

abbrev pub forbids : List SocketAddr → Option SocketAddr → Bool
forbids accepted none = false
forbids accepted (some addr) = not (allows accepted addr)
