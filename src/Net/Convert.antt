-- ===== src/Net/Convert.antt =====
-- src/protocol/util.rs: `addr_to_str` and `str_to_addr`.
use tws_rust.Prelude.{
  [], ◌∷◌, ◌++◌, take, drop, not, ◌≡◌, refl, if◌then◌else◌, Result, ok, ok_or, ◌>>=◌,
}
use tws_rust.Text.Bytes.{Bytes, codes}
use tws_rust.Text.Search.{remove, contains, rfind}
use tws_rust.Net.Addr.{SocketAddr, v4, v6}
use tws_rust.Net.Show.{show_addr}
use tws_rust.Net.Read.{parse_addr}

-- Omits the brackets of an IPv6 address.
unfoldable pub addr_to_str : SocketAddr → Bytes
unfolding show_addr remove
addr_to_str addr = remove b']' (remove b'[' (show_addr addr))

-- Puts the brackets back round what stands before the last colon, unless there is a dot.
unfoldable pub bracketed : Bytes → Result Bytes
unfolding rfind remove
bracketed addr = do
  index ← ok_or (rfind b':' addr) "Illegal address: Neither IPv4 nor IPv6"
  ok (b'[' ∷ take index addr ++ codes "]:" ++ remove b':' (drop index addr))

unfoldable pub str_to_addr : Bytes → Result SocketAddr
unfolding bracketed contains parse_addr
str_to_addr addr = do
  my_addr ← if not (contains b'.' addr) then bracketed addr else ok addr
  ok_or (parse_addr my_addr) "Illegal address: Failed to parse"

str_to_addr_1 :
    ◌≡◌ {A = Result SocketAddr}
      (str_to_addr (codes "192.168.1.1:443"))
      (ok (record { ip = v4 192 168 1 1; port = 443 }))
unfolding str_to_addr
str_to_addr_1 = refl

str_to_addr_2 :
    str_to_addr (codes "fe80::dead:beef:8080")
    ≡ ok (record { ip = v6 (0xfe80 ∷ 0 ∷ 0 ∷ 0 ∷ 0 ∷ 0 ∷ 0xdead ∷ 0xbeef ∷ []); port = 8080 })
unfolding str_to_addr
str_to_addr_2 = refl

addr_to_str_2 :
    addr_to_str
      (record { ip = v6 (0xfe80 ∷ 0 ∷ 0 ∷ 0 ∷ 0 ∷ 0 ∷ 0xdead ∷ 0xbeef ∷ []); port = 8080 })
    ≡ codes "fe80::dead:beef:8080"
unfolding addr_to_str
addr_to_str_2 = refl
