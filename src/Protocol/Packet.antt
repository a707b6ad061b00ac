-- ===== src/Protocol/Packet.antt =====
-- The parsed packets and the states of a logical connection (src/protocol/protocol.rs).
use tws_rust.Prelude.{Bool, true, false, if◌then◌else◌, Result, ok, err, ◌≡◌, refl}
use tws_rust.Text.Bytes.{Bytes, codes, bytes_eq}
use tws_rust.Net.Addr.{SocketAddr}

pub data ConnectionState : Type 0 where
  ok_state closed pause resume : ConnectionState

pub data Packet : Type 0 where
  handshake : SocketAddr → Packet
  connect : Bytes → Packet
  udp_connect : Bytes → Packet
  connection_state : Bytes → ConnectionState → Packet
  payload : Bytes → Bytes → Packet
  udp_payload : Bytes → Bytes → Packet
  unrecognized : Packet

unfoldable pub to_string : ConnectionState → Bytes
to_string ok_state = codes "OK"
to_string closed = codes "CLOSED"
to_string pause = codes "PAUSE"
to_string resume = codes "RESUME"

unfoldable pub parse_state : Bytes → Result ConnectionState
unfolding bytes_eq
parse_state s =
    if bytes_eq s (codes "OK")
    then ok ok_state
    else if bytes_eq s (codes "CLOSED")
    then ok closed
    else if bytes_eq s (codes "PAUSE")
    then ok pause
    else if bytes_eq s (codes "RESUME")
    then ok resume
    else err "Not a Connection State packet"

unfoldable pub is_ok_state : ConnectionState → Bool
is_ok_state ok_state = true
is_ok_state _ = false

unfoldable pub is_closed : ConnectionState → Bool
is_closed closed = true
is_closed _ = false

unfoldable pub is_pause : ConnectionState → Bool
is_pause pause = true
is_pause _ = false

unfoldable pub is_resume : ConnectionState → Bool
is_resume resume = true
is_resume _ = false

pub parse_state-to_string : (s : ConnectionState) → parse_state (to_string s) ≡ ok s
unfolding parse_state to_string
parse_state-to_string ok_state = refl
parse_state-to_string closed = refl
parse_state-to_string pause = refl
parse_state-to_string resume = refl
