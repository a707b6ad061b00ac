-- ===== src/Protocol/Connect.antt =====
-- The packets that ask for a logical connection: `connect_build`, `connect_parse`,
-- `udp_connect_build` and `udp_connect_parse` of src/protocol/protocol.rs.
use tws_rust.Prelude.{
  List, [], ◌∷◌, ◌++◌, ◌&&◌, if◌then◌else◌, ◌==◌, length, drop, Result, ok, err, ◌>>=◌,
}
use tws_rust.Text.Bytes.{Bytes, codes}
use tws_rust.Text.Search.{starts_with}
use tws_rust.Protocol.Auth.{Crypto, build_authenticated_packet, parse_authenticated_packet}

unfoldable pub connect_build : Crypto → Bytes → Bytes → Result Bytes
connect_build c passwd conn_id =
    build_authenticated_packet c passwd (codes "NEW CONNECTION " ++ conn_id)

-- What `connect_parse` does with the lines.
unfoldable pub connect_lines : List Bytes → Result Bytes
connect_lines [] = err "Not a Connect packet"
connect_lines (line ∷ rest) =
    if starts_with line (codes "NEW CONNECTION ") && length line == 21
    then ok (drop 15 line)
    else err "Not a Connect packet"

unfoldable pub connect_parse : Crypto → Bytes → Bytes → Result Bytes
unfolding connect_lines
connect_parse c passwd packet = do
  lines ← parse_authenticated_packet c passwd packet
  connect_lines lines

unfoldable pub udp_connect_build : Crypto → Bytes → Bytes → Result Bytes
udp_connect_build c passwd conn_id =
    build_authenticated_packet c passwd (codes "NEW UDP CONNECTION " ++ conn_id)

unfoldable pub udp_connect_lines : List Bytes → Result Bytes
udp_connect_lines [] = err "Not a UDP Connect packet"
udp_connect_lines (line ∷ rest) =
    if starts_with line (codes "NEW UDP CONNECTION ") && length line == 25
    then ok (drop 19 line)
    else err "Not a UDP Connect packet"

unfoldable pub udp_connect_parse : Crypto → Bytes → Bytes → Result Bytes
unfolding udp_connect_lines
udp_connect_parse c passwd packet = do
  lines ← parse_authenticated_packet c passwd packet
  udp_connect_lines lines
