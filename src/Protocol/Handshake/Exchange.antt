-- ===== src/Protocol/Handshake/Exchange.antt =====
-- The handshake: what the client builds, the server accepts within five seconds, for an IPv4 target.
use tws_rust.Prelude.{
  ℕ, ◌+◌, ◌≤◌, ◌<◌, ◌^◌, List, [], ◌∷◌, ◌++◌, true, if◌then◌else◌, ltb, lt→ltb, ◌&&◌, length,
  length-append, drop, ok, err, ◌≡◌, refl, ap, ap₂, chain_err, ◌∙◌, arith, All, All-append,
}
use tws_rust.Prelude.Int.{pos, sub_i64-pos}
use tws_rust.Text.Bytes.{Bytes, codes, newline, Lacks, IsAscii}
use tws_rust.Text.Utf8.{is_utf8, is_utf8-ascii}
use tws_rust.Text.Search.{starts_with, starts_with-append}
use tws_rust.Text.Split.{lines, lines_last, lines-append, strip_return_plain, EndsPlain}
use tws_rust.Text.Decimal.{show_ℕ, show_i64}
use tws_rust.Text.Decimal.RoundTrip.{IsDigit, show_ℕ-IsDigit, show_ℕ-cons, parse_i64-show_i64}
use tws_rust.Net.Addr.{SocketAddr, v4, v4_addr, InRange}
use tws_rust.Net.Convert.{addr_to_str, str_to_addr}
use tws_rust.Net.RoundTrip.{str_to_addr-addr_to_str, addr_to_str-bytes, addr_to_str-ne-nil}
use tws_rust.Protocol.Packet.{handshake, unrecognized}
use tws_rust.Protocol.Auth.{Crypto, parse_authenticated_packet}
use tws_rust.Protocol.Auth.RoundTrip.{
  TextCodes, parse_authenticated-build, parse_authenticated_sound,
}
use tws_rust.Protocol.Trust.{parse_plain_other}
use tws_rust.Protocol.Connect.{connect_parse, udp_connect_parse, connect_lines, udp_connect_lines}
use tws_rust.Protocol.Handshake.{
  handshake_body, handshake_build, handshake_lines, handshake_check, handshake_parse,
}
use tws_rust.Protocol.Dispatch.{parse_packet, parse_plain}

-- Bytes that neither end a line nor stand outside ASCII.
IsVisible : ℕ → Type 0
IsVisible b = (b < 128) × (13 < b)

visible-IsAscii : (s : Bytes) → All IsVisible s → IsAscii s
unfolding IsVisible
visible-IsAscii [] h = tt
visible-IsAscii (x ∷ s) h = (h.0.0, visible-IsAscii s h.1)

visible-Lacks : (s : Bytes) → All IsVisible s → Lacks newline s
unfolding IsVisible
visible-Lacks [] h = tt
visible-Lacks (x ∷ s) h = (omega arith, visible-Lacks s h.1)

visible-EndsPlain : (s : Bytes) → All IsVisible s → EndsPlain s
unfolding IsVisible
visible-EndsPlain [] h = tt
visible-EndsPlain (x ∷ []) h = omega arith
visible-EndsPlain (x ∷ y ∷ s) h = visible-EndsPlain (y ∷ s) h.1

digits-IsVisible : (s : Bytes) → All IsDigit s → All IsVisible s
unfolding IsVisible
digits-IsVisible [] h = tt
digits-IsVisible (x ∷ s) h = (omega arith, digits-IsVisible s h.1)

show_ℕ-IsVisible : (n : ℕ) → All IsVisible (show_ℕ n)
show_ℕ-IsVisible n = digits-IsVisible (show_ℕ n) (show_ℕ-IsDigit n)

-- The first line of the body of a handshake at a time that is not negative.
now_line : ℕ → Bytes
now_line t = codes "NOW " ++ show_i64 (pos t)

target_line : SocketAddr → Bytes
target_line a = codes "TARGET " ++ addr_to_str a

now_line-IsVisible : (t : ℕ) → All IsVisible (now_line t)
unfolding now_line show_i64 IsVisible
now_line-IsVisible t =
    (omega arith, (omega arith, (omega arith, (omega arith, show_ℕ-IsVisible t))))

target_line-IsVisible : (a b c d port : ℕ) → All IsVisible (target_line (v4_addr a b c d port))
unfolding target_line IsVisible
target_line-IsVisible a b c d port =
    All-append _ (codes "TARGET") (b' ' ∷ addr_to_str (v4_addr a b c d port)) (omega arith)
      ((omega arith, inside _ (addr_to_str-bytes a b c d port)))
  where
    inside : (s : Bytes) → All (λ x. (b'.' ≤ x) × (x ≤ b':')) s → All (λ b. (b < 128) × (13 < b)) s
    inside [] h = tt
    inside (x ∷ s) h = (omega arith, inside s h.1)

body_lines :
    (t a b c d port : ℕ)
    → lines (handshake_body (pos t) (v4_addr a b c d port))
      ≡ now_line t ∷ target_line (v4_addr a b c d port) ∷ []
unfolding handshake_body now_line target_line
body_lines t a b c d port =
    let now = now_line t in
    let target = target_line (v4_addr a b c d port) in
    let now_ok = now_line-IsVisible t in
    let target_ok = target_line-IsVisible a b c d port in
    let split : lines (now ++ newline ∷ target) ≡ _ =
      lines-append now target (visible-Lacks now now_ok) in
    split
    ∙ ap₂ ◌∷◌ (strip_return_plain now (visible-EndsPlain now now_ok))
        (lines_last b'T' _ (visible-Lacks target target_ok) (visible-EndsPlain target target_ok))

body_utf8 : (t a b c d port : ℕ) → is_utf8 (handshake_body (pos t) (v4_addr a b c d port)) ≡ true
unfolding handshake_body now_line target_line
body_utf8 t a b c d port = is_utf8-ascii _ (
    All-append _ (now_line t) _ (visible-IsAscii (now_line t) (now_line-IsVisible t)) (
      omega arith,
      visible-IsAscii (target_line (v4_addr a b c d port)) (target_line-IsVisible a b c d port),
    ))

-- The test for a line with a tag and something behind it.
tagged :
    (p s : Bytes)
    → 0 < length s
    → (starts_with (p ++ s) p && ltb (length p) (length (p ++ s))) ≡ true
tagged p s h = rw (starts_with-append p s) (lt→ltb _ _ (omega (arith, length-append p s)))

read_lines :
    (t : ℕ) (a : SocketAddr)
    → t < 2 ^ 63
    → 0 < length (addr_to_str a)
    → handshake_lines (now_line t ∷ target_line a ∷ []) ≡ ok (pos t, target_line a)
unfolding handshake_lines now_line target_line
read_lines t a h k =
    let (x, s, e) = show_ℕ-cons t in
    let some_digits : 0 < length (show_i64 (pos t)) = unfold show_i64 in rw e (omega arith) in
    let now = tagged (codes "NOW ") (show_i64 (pos t)) some_digits in
    let target = tagged (codes "TARGET ") (addr_to_str a) k in
    let time = parse_i64-show_i64 t h in rw (now, target, time)

check_age :
    (now t : ℕ) (s : Bytes)
    → now < 2 ^ 63
    → t < 2 ^ 63
    → handshake_check (pos now) (pos t, s) ≡ (
        if ltb (t + 5000) now
        then err "Protocol handshake timed out"
        else chain_err (str_to_addr (drop 7 s)) "Illegal host name")
unfolding handshake_check
check_age now t s h k = ground (arith, sub_i64-pos now t h k)

-- The first line of a handshake asks for no connection.
no_connect :
    (t : ℕ) (rest : List Bytes)
    → (connect_lines (now_line t ∷ rest) ≡ err "Not a Connect packet")
      × (udp_connect_lines (now_line t ∷ rest) ≡ err "Not a UDP Connect packet")
unfolding connect_lines udp_connect_lines now_line starts_with
no_connect t rest = (refl, refl)

-- The server accepts a handshake to an IPv4 target exactly if it is at most five seconds old, clock
-- skew into the future included; an older one is treated like noise.
pub parse_packet-handshake_build :
    (c : Crypto) (codes_text : TextCodes c) (passwd : Bytes) (t now a b c' d port : ℕ)
    {packet : Bytes}
    → InRange (v4 a b c' d)
    → port < 65536
    → t < 2 ^ 63
    → now < 2 ^ 63
    → handshake_build c passwd (pos t) (v4_addr a b c' d port) ≡ ok packet
    → parse_packet c passwd (pos now) packet
      ≡ (if ltb (t + 5000) now then unrecognized else handshake (v4_addr a b c' d port))
unfolding parse_packet parse_plain handshake_build handshake_parse connect_parse udp_connect_parse
parse_packet-handshake_build c codes_text passwd t now a b c' d port {packet} r p ht hn h =
    let addr = v4_addr a b c' d port in
    let parsed : parse_authenticated_packet c passwd packet
        ≡ ok (now_line t ∷ target_line addr ∷ []) =
      parse_authenticated-build c passwd _ codes_text (body_utf8 t a b c' d port) h
      ∙ ap ok (body_lines t a b c' d port) in
    let read = read_lines t addr ht (addr_to_str-ne-nil a b c' d port) in
    let target : str_to_addr (drop 7 (target_line addr)) ≡ ok addr =
      unfold target_line in str_to_addr-addr_to_str a b c' d port r p in
    let age = check_age now t (target_line addr) hn ht in
    let other = no_connect t (target_line addr ∷ []) in
    let plain : parse_plain packet ≡ unrecognized =
      let (auth, msg, whole, _, _) = parse_authenticated_sound c passwd packet parsed in
      rw whole (parse_plain_other b'A' _ (omega arith) (omega arith) (omega arith)) in
    ground (arith, parsed, read, age, target, other, plain)
