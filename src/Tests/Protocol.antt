-- ===== src/Tests/Protocol.antt =====
-- The packets of src/protocol/protocol.rs on concrete inputs.
use tws_rust.Prelude.{[], ◌∷◌, ◌++◌, some, ok, err, ◌≡◌, refl, ap, arith}
use tws_rust.Prelude.Int.{pos}
use tws_rust.Text.Bytes.{Bytes, codes, newline, bytes_eq}
use tws_rust.Text.Utf8.{from_utf8}
use tws_rust.Text.Search.{find}
use tws_rust.Text.Split.{split}
use tws_rust.Text.Decimal.{parse_i64}
use tws_rust.Net.Addr.{v4_addr}
use tws_rust.Net.Convert.{addr_to_str}
use tws_rust.Protocol.Packet.{handshake, connect, unrecognized, ok_state, parse_state, to_string}
use tws_rust.Protocol.Auth.{hmac_sha256, build_authenticated_packet, parse_authenticated_packet}
use tws_rust.Protocol.ConnId.{IsConnId}
use tws_rust.Protocol.Connect.{connect_build, udp_connect_build, connect_parse, udp_connect_parse}
use tws_rust.Protocol.Handshake.{handshake_build, handshake_body, handshake_parse}
use tws_rust.Protocol.Handshake.Exchange.{parse_packet-handshake_build}
use tws_rust.Protocol.State.{connect_state_build, connect_state_parse}
use tws_rust.Protocol.Data.{data_build, udp_data_build, data_parse, udp_data_parse}
use tws_rust.Protocol.Dispatch.{parse_packet}
use tws_rust.Protocol.Exchange.{parse_packet-connect_build, parse_packet_empty}
use tws_rust.Protocol.Trust.{opens, parse_packet_authentic}
use tws_rust.Util.RandStr.{rand_str, rand_str-IsConnId}
use tws_rust.Tests.Toy.{toy, toy_text, passwd, id}

pub id-IsConnId : IsConnId id
unfolding tws_rust.Text.Utf8.is_utf8
id-IsConnId = record {
  six = refl;
  utf8 = refl;
  no_space = omega arith;
  one_line = omega arith;
  plain = omega arith;
}

abbrev pub connect_packet : Bytes
connect_packet = codes "AUTH g" ++ newline ∷ codes "NEW CONNECTION XnjEa2"

pub connect_built : connect_build toy passwd id ≡ ok connect_packet
unfolding connect_build build_authenticated_packet hmac_sha256
connect_built = refl

connect_read : parse_packet toy passwd (pos 9) connect_packet ≡ connect id
connect_read = parse_packet-connect_build toy toy_text passwd (pos 9) id id-IsConnId connect_built

abbrev pub udp_packet : Bytes
udp_packet = codes "AUTH l" ++ newline ∷ codes "NEW UDP CONNECTION XnjEa2"

pub udp_built : udp_connect_build toy passwd id ≡ ok udp_packet
unfolding udp_connect_build build_authenticated_packet hmac_sha256
udp_built = refl

abbrev pub handshake_packet : Bytes
handshake_packet =
    codes "AUTH d"
    ++ newline ∷ (codes "NOW 1517476212983" ++ newline ∷ codes "TARGET 192.168.1.1:443")

pub handshake_built :
    handshake_build toy passwd (pos 1_517_476_212_983) (v4_addr 192 168 1 1 443)
    ≡ ok handshake_packet
unfolding handshake_build handshake_body addr_to_str tws_rust.Text.Decimal.show_i64
    build_authenticated_packet hmac_sha256
handshake_built = refl

handshake_example :
    parse_packet toy passwd (pos 1_517_476_217_983) handshake_packet
    ≡ handshake (v4_addr 192 168 1 1 443)
handshake_example =
    parse_packet-handshake_build toy toy_text passwd 1_517_476_212_983 1_517_476_217_983 192 168 1 1
      443 (omega arith) (omega arith) (omega arith) (omega arith) handshake_built

empty_example :
    (parse_packet toy passwd (pos 9) (data_build id []) ≡ unrecognized)
    × (parse_packet toy passwd (pos 9) (udp_data_build id []) ≡ unrecognized)
empty_example = parse_packet_empty toy passwd (pos 9) id refl

authentic_example :
    (auth : Bytes) × (msg : Bytes) × (connect_packet ≡ codes "AUTH " ++ (auth ++ newline ∷ msg))
    × (hmac_sha256 toy passwd msg ≡ ok auth)
authentic_example = parse_packet_authentic toy passwd (pos 9) connect_packet (ap opens connect_read)

rand_str_example :
    (made : Bytes) × (rand_str (0 ∷ 61 ∷ 25 ∷ 26 ∷ 51 ∷ 9 ∷ []) ≡ some made) × IsConnId made
rand_str_example = rand_str-IsConnId (0 ∷ 61 ∷ 25 ∷ 26 ∷ 51 ∷ 9 ∷ []) refl (omega arith)

-- The tests of the source that need no real HMAC.
connect_state_build_1 : connect_state_build (codes "abcde") ok_state ≡ codes "CONNECTION abcde OK"
unfolding connect_state_build to_string
connect_state_build_1 = refl

connect_state_parse_1 :
    connect_state_parse (codes "CONNECTION abcde OK") ≡ ok (codes "abcde", ok_state)
unfolding connect_state_parse bytes_eq from_utf8 split parse_state
connect_state_parse_1 = refl

connect_state_parse_fail_1 :
    connect_state_parse (codes "CCNNECTION cbdae CLOSED") ≡ err "Not a Connect State packet"
unfolding connect_state_parse bytes_eq from_utf8 split parse_state
connect_state_parse_fail_1 = refl

data_parse_1 : data_parse (codes "PacedefHelloWorld") ≡ ok (codes "acedef", codes "HelloWorld")
unfolding data_parse from_utf8
data_parse_1 = refl

-- A packet whose code is wrong is not recognized.
tampered :
    parse_packet toy passwd (pos 9) (codes "AUTH h" ++ newline ∷ codes "NEW CONNECTION XnjEa2")
    ≡ unrecognized
unfolding parse_packet handshake_parse connect_parse udp_connect_parse parse_authenticated_packet
    from_utf8 bytes_eq find hmac_sha256 connect_state_parse data_parse udp_data_parse
tampered = refl

-- One packet of each kind.
abbrev greeting : Bytes
greeting = codes "HelloWorld"
