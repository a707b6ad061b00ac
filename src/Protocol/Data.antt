-- ===== src/Protocol/Data.antt =====
-- The packets that carry the forwarded bytes: `data_build`, `data_parse`, `udp_data_build` and
-- `udp_data_parse` of src/protocol/protocol.rs.
use tws_rust.Prelude.{
  ℕ, [], ◌∷◌, ◌++◌, Bool, true, not, ◌||◌, ◌==◌, if◌then◌else◌, ltb, length, take, drop, Result, ok,
  err, ◌>>=◌,
}
use tws_rust.Text.Bytes.{Bytes}
use tws_rust.Text.Utf8.{from_utf8}

-- `packet[0] != c`
abbrev head_differs : Bytes → ℕ → Bool
head_differs [] c = true
head_differs (x ∷ s) c = not (x == c)

unfoldable pub data_build : Bytes → Bytes → Bytes
data_build conn_id bytes = (b'P' ∷ conn_id) ++ bytes

unfoldable pub data_parse : Bytes → Result (Bytes × Bytes)
data_parse packet =
    if ltb (length packet) 8 || head_differs packet b'P'
    then err "Not a Data packet"
    else do s ← from_utf8 (take 6 (drop 1 packet)) "Failed to decode conn_id"; ok (s, drop 7 packet)

unfoldable pub udp_data_build : Bytes → Bytes → Bytes
udp_data_build conn_id bytes = (b'U' ∷ conn_id) ++ bytes

unfoldable pub udp_data_parse : Bytes → Result (Bytes × Bytes)
udp_data_parse packet =
    if ltb (length packet) 8 || head_differs packet b'U'
    then err "Not a Data packet"
    else do s ← from_utf8 (take 6 (drop 1 packet)) "Failed to decode conn_id"; ok (s, drop 7 packet)
