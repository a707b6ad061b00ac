-- ===== src/Protocol/State.antt =====
-- The state of a logical connection: `connect_state_build` and `connect_state_parse` of
-- src/protocol/protocol.rs.
use tws_rust.Prelude.{
  List, [], ◌∷◌, ◌++◌, not, ◌||◌, if◌then◌else◌, ltb, length, take, Result, ok, err, ◌>>=◌,
}
use tws_rust.Text.Bytes.{Bytes, codes, bytes_eq}
use tws_rust.Text.Utf8.{from_utf8}
use tws_rust.Text.Split.{split}
use tws_rust.Protocol.Packet.{ConnectionState, to_string, parse_state}

unfoldable pub connect_state_build : Bytes → ConnectionState → Bytes
connect_state_build conn_id state = codes "CONNECTION " ++ (conn_id ++ b' ' ∷ to_string state)

-- `connect_state_parse` on the parts between the spaces.
unfoldable pub connect_state_parts : List Bytes → Result (Bytes × ConnectionState)
connect_state_parts (a ∷ b ∷ c ∷ []) = do state ← parse_state c; ok (b, state)
connect_state_parts _ = err "Not a Connect State packet"

unfoldable pub connect_state_parse : Bytes → Result (Bytes × ConnectionState)
unfolding connect_state_parts
connect_state_parse packet =
    if ltb (length packet) 10 || not (bytes_eq (take 10 packet) (codes "CONNECTION"))
    then err "Not a Connect State packet"
    else do s ← from_utf8 packet "Not a Connect State packet"; connect_state_parts (split b' ' s)
