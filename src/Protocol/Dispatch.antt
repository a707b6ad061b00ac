-- ===== src/Protocol/Dispatch.antt =====
-- `parse_packet` of src/protocol/protocol.rs: the parsers in order, the first that succeeds.
use tws_rust.Prelude.{Result, ok, err}
use tws_rust.Prelude.Int.{ℤ}
use tws_rust.Text.Bytes.{Bytes}
use tws_rust.Protocol.Packet.{
  Packet, handshake, connect, udp_connect, connection_state, payload, udp_payload, unrecognized,
}
use tws_rust.Protocol.Auth.{Crypto}
use tws_rust.Protocol.Connect.{connect_parse, udp_connect_parse}
use tws_rust.Protocol.Handshake.{handshake_parse}
use tws_rust.Protocol.State.{connect_state_parse}
use tws_rust.Protocol.Data.{data_parse, udp_data_parse}

-- `if let Ok(res) = attempt { success(res) } else { otherwise }`
abbrev pub or_else {ℓ} : {A : Type ℓ} → Result A → (A → Packet) → Packet → Packet
or_else (ok a) success otherwise = success a
or_else (err e) success otherwise = otherwise

-- The parsers of packets that carry no authentication code.
unfoldable pub parse_plain : Bytes → Packet
parse_plain packet =
    or_else (connect_state_parse packet) (λ r. connection_state r.0 r.1)
      (or_else (data_parse packet) (λ r. payload r.0 r.1)
        (or_else (udp_data_parse packet) (λ r. udp_payload r.0 r.1) unrecognized))

unfoldable pub parse_packet : Crypto → Bytes → ℤ → Bytes → Packet
unfolding parse_plain
parse_packet c passwd time packet = or_else (handshake_parse c passwd time packet) handshake (
    or_else (connect_parse c passwd packet) connect
      (or_else (udp_connect_parse c passwd packet) udp_connect (parse_plain packet)))
