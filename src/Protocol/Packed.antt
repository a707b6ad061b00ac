-- ===== src/Protocol/Packed.antt =====
-- The packets that the two sides send each other (src/protocol/protocol.rs), packed and read back.
use tws_rust.Prelude.{[], Result, ok, err, ◌≢◌}
use tws_rust.Prelude.Int.{ℤ}
use tws_rust.Text.Bytes.{Bytes}
use tws_rust.Protocol.Auth.{Crypto}
use tws_rust.Protocol.ConnId.{IsConnId}
use tws_rust.Protocol.Connect.{connect_build, udp_connect_build}
use tws_rust.Protocol.State.{connect_state_build}
use tws_rust.Protocol.Data.{data_build, udp_data_build}
use tws_rust.Protocol.Handshake.{handshake_build}
use tws_rust.Protocol.Packet.{
  Packet, handshake, connect, udp_connect, connection_state, payload, udp_payload, unrecognized,
}

-- The builder of each kind of packet; `time` is the time that a handshake carries.
abbrev pub build : Crypto → Bytes → ℤ → Packet → Result Bytes
build c passwd time (handshake addr) = handshake_build c passwd time addr
build c passwd time (connect conn_id) = connect_build c passwd conn_id
build c passwd time (udp_connect conn_id) = udp_connect_build c passwd conn_id
build c passwd time (connection_state conn_id state) = ok (connect_state_build conn_id state)
build c passwd time (payload conn_id bytes) = ok (data_build conn_id bytes)
build c passwd time (udp_payload conn_id bytes) = ok (udp_data_build conn_id bytes)
build c passwd time unrecognized = err "no packet"

-- A packet about a connection, with its identifier, and with some data if it is to carry data.
abbrev pub IsAbout : Packet → Type 0
IsAbout (handshake addr) = ⊥
IsAbout (connect conn_id) = IsConnId conn_id
IsAbout (udp_connect conn_id) = IsConnId conn_id
IsAbout (connection_state conn_id state) = IsConnId conn_id
IsAbout (payload conn_id bytes) = IsConnId conn_id × (bytes ≢ [])
IsAbout (udp_payload conn_id bytes) = IsConnId conn_id × (bytes ≢ [])
IsAbout unrecognized = ⊥
