-- ===== src/Protocol/Handshake.antt =====
-- The handshake: `_handshake_build` and `_handshake_parse` of src/protocol/protocol.rs, and the two
-- functions that call them with the clock's time. `time - packet_time` is `i64` subtraction, which
-- wraps around in a release build.
pub mod Exchange
use tws_rust.Prelude.{
  ℕ, List, [], ◌∷◌, ◌++◌, Bool, true, false, ◌&&◌, not, if◌then◌else◌, ltb, length, drop, Result,
  ok, err, ok_or, require, chain_err, ◌>>=◌, ◌>>◌, ◌≡◌,
}
use tws_rust.Prelude.Int.{ℤ, pos, sub_i64, ltb_ℤ}
use tws_rust.Text.Bytes.{Bytes, codes, newline}
use tws_rust.Text.Search.{starts_with}
use tws_rust.Text.Decimal.{show_i64, parse_i64}
use tws_rust.Net.Addr.{SocketAddr}
use tws_rust.Net.Convert.{addr_to_str, str_to_addr}
use tws_rust.Protocol.Auth.{Crypto, build_authenticated_packet, parse_authenticated_packet}

-- The body of a handshake.
unfoldable pub handshake_body : ℤ → SocketAddr → Bytes
handshake_body time target =
    codes "NOW " ++ (show_i64 time ++ newline ∷ (codes "TARGET " ++ addr_to_str target))

-- With the time given, `_handshake_build`; at the clock's time, `handshake_build`.
unfoldable pub handshake_build : Crypto → Bytes → ℤ → SocketAddr → Result Bytes
handshake_build c passwd time target =
    build_authenticated_packet c passwd (handshake_body time target)

-- What `_handshake_parse` does with the lines: first the shape and the time of the packet …
unfoldable pub handshake_lines : List Bytes → Result (ℤ × Bytes)
handshake_lines [] = err "Not a handshake packet"
handshake_lines (first ∷ []) = err "Not a handshake packet"
handshake_lines (first ∷ second ∷ rest) = do
  require (starts_with first (codes "NOW ") && ltb 4 (length first)) "Not a handshake packet"
  require (starts_with second (codes "TARGET ") && ltb 7 (length second)) "Not a handshake packet"
  packet_time ← ok_or (parse_i64 (drop 4 first)) "Illegal handshake packet"
  ok (packet_time, second)

-- … then its age and the target.
unfoldable pub handshake_check : ℤ → ℤ × Bytes → Result SocketAddr
handshake_check time (packet_time, second) =
    if ltb_ℤ (pos 5000) (sub_i64 time packet_time)
    then err "Protocol handshake timed out"
    else chain_err (str_to_addr (drop 7 second)) "Illegal host name"

unfoldable pub handshake_parse : Crypto → Bytes → ℤ → Bytes → Result SocketAddr
unfolding handshake_lines handshake_check
handshake_parse c passwd time packet = do
  lines ← parse_authenticated_packet c passwd packet
  timed ← handshake_lines lines
  handshake_check time timed
