-- ===== src/Protocol/Auth.antt =====
-- Packets authenticated by HMAC-SHA256: `hmac_sha256`, `build_authenticated_packet` and
-- `parse_authenticated_packet` of src/protocol/protocol.rs.
pub mod RoundTrip
use tws_rust.Prelude.{
  ℕ, suc, List, [], ◌∷◌, ◌++◌, Bool, not, ◌||◌, Option, none, some, if◌then◌else◌, ltb, length,
  take, drop, Result, ok, err, ok_or, require, ◌>>=◌, ◌>>◌, ◌≡◌, refl,
}
use tws_rust.Text.Bytes.{Bytes, codes, newline, bytes_eq}
use tws_rust.Text.Utf8.{from_utf8}
use tws_rust.Text.Search.{find}
use tws_rust.Text.Split.{lines}

-- The crates `hmac`, `sha2` and `base64`, which are not part of the repository: `new_mac` makes the
-- code of a key, if the key's length is accepted, and `encode` is the text of a code.
pub record Crypto : Type 0 where
  pub new_mac : Bytes → Option (Bytes → Bytes)
  pub encode : Bytes → Bytes

unfoldable pub hmac_sha256 : Crypto → Bytes → Bytes → Result Bytes
hmac_sha256 c passwd body = elim (c.new_mac passwd) [
  | none ↦ err "HMAC_SHA256 failed"
  | some mac ↦ ok (c.encode (mac body))
]

unfoldable pub build_authenticated_packet : Crypto → Bytes → Bytes → Result Bytes
build_authenticated_packet c passwd msg = do
  auth ← hmac_sha256 c passwd msg
  ok (codes "AUTH " ++ (auth ++ newline ∷ msg))

-- The body's lines, if the first line holds the code of everything behind it.
unfoldable pub parse_authenticated_packet : Crypto → Bytes → Bytes → Result (List Bytes)
parse_authenticated_packet c passwd packet =
    if ltb (length packet) 4 || not (bytes_eq (take 4 packet) (codes "AUTH"))
    then err "Not a proper authenticated packet."
    else do
      packet_str ← from_utf8 packet "Illegal packet"
      index ← ok_or (find newline packet_str) "Not a proper packet"
      auth ← hmac_sha256 c passwd (drop 1 (drop index packet_str))
      if bytes_eq (take index packet_str) (codes "AUTH " ++ auth)
          then ok (drop 1 (lines packet_str))
          else err "Illegal packet"
