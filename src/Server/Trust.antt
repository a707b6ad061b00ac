-- ===== src/Server/Trust.antt =====
-- The server's gate and the authentication code together (src/protocol/server.rs, src/protocol/protocol.rs).
use tws_rust.Prelude.{◌∷◌, ◌++◌, Option, none, some, ok, ◌≡◌}
use tws_rust.Text.Bytes.{Bytes, codes, newline}
use tws_rust.Protocol.Auth.{Crypto, hmac_sha256}
use tws_rust.Protocol.Packet.{Packet}
use tws_rust.Session.Message.{text, binary, ping, pong, close}
use tws_rust.Server.State.{Server}
use tws_rust.Server.Run.{
  Event, messages, connected, remote_data, remote_udp_data, remote_close, remote_udp_close, writes,
  ends,
}

-- A packet with the code of its body, under the password, in its first line.
abbrev pub IsAuthentic : Crypto → Bytes → Bytes → Type 0
IsAuthentic c passwd packet =
    (auth : Bytes) × (msg : Bytes) × (packet ≡ codes "AUTH " ++ (auth ++ newline ∷ msg))
    × (hmac_sha256 c passwd msg ≡ ok auth)

-- The packet of an event, if it is a message that is parsed.
abbrev pub packet_of : Event → Option Bytes
packet_of (messages time now bound (text bytes)) = some bytes
packet_of (messages time now bound (binary bytes)) = some bytes
packet_of (messages time now bound (ping bytes)) = none
packet_of (messages time now bound (pong bytes)) = none
packet_of (messages time now bound close) = none
packet_of (connected now conn_id success) = none
packet_of (remote_data now conn_id bytes) = none
packet_of (remote_udp_data now conn_id bytes) = none
packet_of (remote_close now conn_id) = none
packet_of (remote_udp_close conn_id) = none
packet_of (writes now current) = none
packet_of ends = none

abbrev pub IsForged : Crypto → Bytes → Option Bytes → Type 0
IsForged c passwd none = Unit {0}
IsForged c passwd (some packet) = ¬ IsAuthentic c passwd packet
