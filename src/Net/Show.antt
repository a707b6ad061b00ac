-- ===== src/Net/Show.antt =====
-- `Display` of `SocketAddr` in the standard library of the program's time.
use tws_rust.Prelude.{
  ℕ, zero, suc, ◌+◌, ◌-◌, ◌/◌, ◌%◌, List, [], ◌∷◌, ◌++◌, Bool, true, ◌&&◌, ltb, ◌==◌, if◌then◌else◌,
  take, drop,
}
use tws_rust.Text.Bytes.{Bytes, codes}
use tws_rust.Text.Decimal.{digits}
use tws_rust.Net.Addr.{IpAddr, v4, v6, SocketAddr}

-- A number of eight bits has at most three digits, one of sixteen bits at most five.
unfoldable pub show_u8 : ℕ → Bytes
unfolding digits
show_u8 n = digits 3 n

unfoldable pub show_u16 : ℕ → Bytes
unfolding digits
show_u16 n = digits 5 n

hex_digit : ℕ → ℕ
hex_digit d = if ltb d 10 then b'0' + d else b'a' + (d - 10)

-- `{:x}`, with at most `f` digits.
hex_digits : ℕ → ℕ → Bytes
unfolding hex_digit
hex_digits zero n = []
hex_digits (suc f) n =
    let front = hex_digits f (n / 16) in
    if ltb n 16 then hex_digit n ∷ [] else front ++ hex_digit (n % 16) ∷ []

unfoldable pub show_v4 : ℕ → ℕ → ℕ → ℕ → Bytes
unfolding show_u8
show_v4 a b c d = show_u8 a ++ b'.' ∷ (show_u8 b ++ b'.' ∷ (show_u8 c ++ b'.' ∷ show_u8 d))

-- The segments with a colon between them.
show_segments : List ℕ → Bytes
unfolding hex_digits
show_segments [] = []
show_segments (s ∷ []) = hex_digits 4 s
show_segments (s ∷ t ∷ rest) = hex_digits 4 s ++ b':' ∷ show_segments (t ∷ rest)

-- The first of the longest runs of zeros: where it starts, and how long it is. The arguments are
-- the position, the current run and the longest one so far.
zero_slice : ℕ → ℕ × ℕ → ℕ × ℕ → List ℕ → ℕ × ℕ
zero_slice i cur longest [] = longest
zero_slice i (at, len) (best_at, best_len) (s ∷ rest) =
    let start = if len == 0 then i else at in
    if s == 0
    then zero_slice (i + 1) (start, len + 1)
        (if ltb best_len (len + 1) then (start, len + 1) else (best_at, best_len)) rest
    else zero_slice (i + 1) (0, 0) (best_at, best_len) rest

-- Two segments as an IPv4 address.
embedded : ℕ → ℕ → Bytes
unfolding show_v4
embedded g h = show_v4 (g / 256) (g % 256) (h / 256) (h % 256)

shorten : List ℕ → Bytes
unfolding show_segments zero_slice
shorten segments =
    let (at, len) = zero_slice 0 (0, 0) (0, 0) segments in
    if ltb 1 len
    then show_segments (take at segments) ++ codes "::" ++ show_segments (drop (at + len) segments)
    else show_segments segments

all_zero : List ℕ → Bool
all_zero [] = true
all_zero (s ∷ rest) = s == 0 && all_zero rest

unfoldable pub show_v6 : List ℕ → Bytes
unfolding embedded shorten all_zero
show_v6 (a ∷ b ∷ c ∷ d ∷ e ∷ f ∷ g ∷ h ∷ []) =
    if all_zero (a ∷ b ∷ c ∷ d ∷ e ∷ [])
    then (if all_zero (f ∷ g ∷ h ∷ [])
        then codes "::"
        else if all_zero (f ∷ g ∷ []) && h == 1
        then codes "::1"
        else if f == 0
        then codes "::" ++ embedded g h
        else if f == 0xffff
        then codes "::ffff:" ++ embedded g h
        else shorten (a ∷ b ∷ c ∷ d ∷ e ∷ f ∷ g ∷ h ∷ []))
    else shorten (a ∷ b ∷ c ∷ d ∷ e ∷ f ∷ g ∷ h ∷ [])
show_v6 segments = shorten segments

unfoldable pub show_addr : SocketAddr → Bytes
unfolding show_v4 show_v6 show_u16
show_addr a = show_ip a.ip ++ b':' ∷ show_u16 a.port
  where
    show_ip : IpAddr → Bytes
    show_ip (v4 a b c d) = show_v4 a b c d
    show_ip (v6 s) = b'[' ∷ show_v6 s ++ b']' ∷ []
