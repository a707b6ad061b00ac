-- ===== src/Client/Handlers.antt =====
-- The dispatch of messages and packets on the client, and what its connections and timers do
-- (src/protocol/client.rs, src/protocol/shared.rs).
use tws_rust.Prelude.{ℕ, ◌-◌, ◌*◌, List, [], ◌∷◌, Bool, true, false, if◌then◌else◌, ltb, some}
use tws_rust.Prelude.Int.{ℤ}
use tws_rust.Text.Bytes.{Bytes}
use tws_rust.Text.Bytes.{bytes_key}
use tws_rust.Map.{Map, remove}
use tws_rust.Protocol.Auth.{Crypto}
use tws_rust.Protocol.Packet.{
  Packet, handshake, connect, udp_connect, connection_state, payload, udp_payload, unrecognized,
}
use tws_rust.Protocol.Dispatch.{parse_packet}
use tws_rust.Session.Message.{OwnedMessage, text, binary, ping, pong, close}
use tws_rust.Session.Service.{
  feed_ws, close_ws, with_udp, forward_tcp, forward_udp, drop_connections,
}
use tws_rust.Client.State.{
  Client, Outcome, Pending, with_session, on_unknown, on_connect_state, on_data, on_udp_data,
  close_any,
}

-- The handlers of the other packets are the empty ones of `TwsService`.
unfoldable pub on_packet : ℕ → Packet → Client → Outcome
unfolding on_unknown on_connect_state on_data on_udp_data
on_packet now (handshake addr) s = some s
on_packet now (connect conn_id) s = some s
on_packet now (udp_connect conn_id) s = some s
on_packet now (connection_state conn_id state) s = on_connect_state now conn_id state s
on_packet now (payload conn_id bytes) s = some (on_data now conn_id bytes s)
on_packet now (udp_payload conn_id bytes) s = some (on_udp_data conn_id bytes s)
on_packet now unrecognized s = some (on_unknown s)

unfoldable pub on_message : Crypto → ℤ → ℕ → OwnedMessage → Client → Outcome
unfolding on_packet
on_message c time now (text bytes) s = on_packet now (parse_packet c s.option.passwd time bytes) s
on_message c time now (binary bytes) s = on_packet now (parse_packet c s.option.passwd time bytes) s
on_message c time now (ping bytes) s = some (with_session (feed_ws now (pong bytes) s.session) s)
on_message c time now (pong bytes) s = some (with_session (record s.session { received = true }) s)
on_message c time now close s = some (with_session (close_ws s.session) s)

-- `ClientConnectionHandler` and `ClientUdpConnectionHandler`.
unfoldable pub on_local_data : ℕ → Bytes → Bytes → Client → Client
on_local_data now conn_id bytes s = with_session (forward_tcp now conn_id bytes s.session) s

unfoldable pub on_local_close : ℕ → Bytes → Client → Client
on_local_close now conn_id s = close_any now conn_id s

unfoldable pub on_local_udp_data : ℕ → Bytes → Bytes → Client → Client
on_local_udp_data now conn_id bytes s = with_session (forward_udp now conn_id bytes s.session) s

unfoldable pub on_local_udp_close : Bytes → Client → Client
on_local_udp_close conn_id s =
    with_session (with_udp (remove conn_id s.session.core.udp_connections) s.session) s

-- `elapsed() > timeout`; instants are in nanoseconds, the timeout in milliseconds.
abbrev pub is_expired : ℕ → ℕ → Pending → Bool
is_expired now timeout p = ltb (timeout * 1_000_000) (now - p.created)

unfoldable pub expired : ℕ → ℕ → Map Bytes Pending → List Bytes
expired now timeout [] = []
expired now timeout ((id, p) ∷ rest) =
    let later = expired now timeout rest in if is_expired now timeout p then id ∷ later else later

unfoldable pub remove_all : {V : Type 0} → List Bytes → Map Bytes V → Map Bytes V
remove_all [] m = m
remove_all (id ∷ ids) m = remove_all ids (remove id m)

-- The periodic removal of pending connections.
unfoldable pub clean_pending : ℕ → Client → Client
unfolding expired remove_all
clean_pending now s = record s {
  pending_connections =
      remove_all (expired now s.option.timeout s.pending_connections) s.pending_connections;
}

-- The clean-up at the end of `run`.
unfoldable pub on_session_end : Client → Client
on_session_end s = record s {
  connected = false;
  session = drop_connections s.session;
  pending_connections = [];
}
