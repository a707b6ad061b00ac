-- ===== src/Protocol/Trust.antt =====
-- What a peer may rely on: which packets `parse_packet` lets through as authenticated.
use tws_rust.Prelude.{ℕ, ◌∷◌, ◌++◌, Bool, true, false, ok, ◌≡◌, ◌≢◌, arith, Result-cases, inl, inr}
use tws_rust.Prelude.Int.{ℤ}
use tws_rust.Text.Bytes.{Bytes, codes, newline, bytes_eq}
use tws_rust.Protocol.Packet.{
  Packet, handshake, connect, udp_connect, connection_state, payload, udp_payload, unrecognized,
}
use tws_rust.Protocol.Auth.{Crypto, hmac_sha256, parse_authenticated_packet}
use tws_rust.Protocol.Auth.RoundTrip.{parse_authenticated_sound}
use tws_rust.Protocol.Connect.{connect_parse, udp_connect_parse}
use tws_rust.Protocol.Handshake.{handshake_parse}
use tws_rust.Protocol.State.{connect_state_parse}
use tws_rust.Protocol.Data.{data_parse, udp_data_parse}
use tws_rust.Protocol.Dispatch.{parse_packet, parse_plain}

-- The packets that open a session or a connection.
abbrev pub opens : Packet → Bool
opens (handshake a) = true
opens (connect id) = true
opens (udp_connect id) = true
opens (connection_state id s) = false
opens (payload id s) = false
opens (udp_payload id s) = false
opens unrecognized = false

pub parse_plain_other :
    (x : ℕ) (s : Bytes) → x ≢ b'C' → x ≢ b'P' → x ≢ b'U' → parse_plain (x ∷ s) ≡ unrecognized
unfolding parse_plain connect_state_parse data_parse udp_data_parse bytes_eq
parse_plain_other x s h k l = ground arith

opens-parse_plain : (packet : Bytes) → opens (parse_plain packet) ≡ false
unfolding parse_plain
opens-parse_plain packet = ground arith

-- A packet is taken for a handshake or a request for a connection only if its first line is `AUTH` and
-- the code, under the shared password, of everything behind that line.
pub parse_packet_authentic :
    (c : Crypto) (passwd : Bytes) (time : ℤ) (packet : Bytes)
    → opens (parse_packet c passwd time packet) ≡ true
    → (auth : Bytes) × (msg : Bytes) × (packet ≡ codes "AUTH " ++ (auth ++ newline ∷ msg))
      × (hmac_sha256 c passwd msg ≡ ok auth)
unfolding parse_packet handshake_parse connect_parse udp_connect_parse
parse_packet_authentic c passwd time packet h =
    elim (Result-cases (parse_authenticated_packet c passwd packet)) [
      | inr (message, bad) ↦ let plain = opens-parse_plain packet in absurd (ground arith)
      | inl (ls, good) ↦
          let (auth, msg, whole, code, _) = parse_authenticated_sound c passwd packet good in
          (auth, msg, whole, code)
    ]
