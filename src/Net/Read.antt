-- ===== src/Net/Read.antt =====
-- `str::parse::<SocketAddr>()` in the standard library of the program's time: a reader takes a text
-- and gives what it has read with the rest.
use tws_rust.Prelude.{
  ℕ, zero, suc, ◌+◌, ◌-◌, ◌*◌, List, [], ◌∷◌, ◌++◌, Bool, true, false, ◌&&◌, ◌||◌, ltb, leb, ◌==◌,
  if◌then◌else◌, Option, none, some, length,
}
use tws_rust.Text.Bytes.{Bytes}
use tws_rust.Net.Addr.{IpAddr, v4, v6, SocketAddr}

abbrev pub Reader : Type 0 → Type 0
Reader A = Bytes → Option (A × Bytes)

infixl 5 ◌>>=◌ ◌>>◌
abbrev pub ◌>>=◌ : {A B : Type 0} → Reader A → (A → Reader B) → Reader B
◌>>=◌ m f s = elim (m s) [ none ↦ none | some (a, rest) ↦ f a rest ]

abbrev pub ◌>>◌ : {B : Type 0} → Reader (Unit {0}) → Reader B → Reader B
m >> k = m >>= λ _. k

abbrev pub give : {A : Type 0} → A → Reader A
give a s = some (a, s)

abbrev pub expect : ℕ → Reader (Unit {0})
expect c [] = none
expect c (x ∷ s) = if x == c then some (tt, s) else none

-- `char::to_digit`
abbrev pub to_digit : ℕ → ℕ → Option ℕ
to_digit radix c =
    let keep = λ (d : ℕ). if ltb d radix then some d else none in
    if leb b'0' c && leb c b'9'
    then keep (c - b'0')
    else if leb b'a' c && leb c b'z'
    then keep (c - b'a' + 10)
    else if leb b'A' c && leb c b'Z'
    then keep (c - b'A' + 10)
    else none

-- The loop of `read_number`: the value so far and the number of digits so far.
unfoldable pub read_digits : ℕ → ℕ → ℕ → ℕ → ℕ → Reader ℕ
read_digits radix most upto acc count [] = if count == 0 then none else some (acc, [])
read_digits radix most upto acc count (c ∷ s) = elim (to_digit radix c) [
  | none ↦ if count == 0 then none else some (acc, c ∷ s)
  | some d ↦
      let acc' = acc * radix + d in
      let rest = read_digits radix most upto acc' (count + 1) s in
      if ltb most (count + 1) || leb upto acc' then none else rest
]

unfoldable pub read_number : ℕ → ℕ → ℕ → Reader ℕ
unfolding read_digits
read_number radix most upto = read_digits radix most upto 0 0

unfoldable pub read_v4 : Reader IpAddr
unfolding read_number
read_v4 = do
  a ← read_number 10 3 256
  expect b'.'
  b ← read_number 10 3 256
  expect b'.'
  c ← read_number 10 3 256
  expect b'.'
  d ← read_number 10 3 256
  give (v4 a b c d)

unfoldable pub read_port : Reader ℕ
unfolding read_number
read_port = do expect b':'; read_number 10 5 65536

read_socket_v4 : Reader SocketAddr
unfolding read_v4 read_port
read_socket_v4 = do ip ← read_v4; port ← read_port; give (record { ip = ip; port = port })

-- Each group but the first stands behind a colon.
after_colon : {A : Type 0} → Bool → Reader A → Reader A
after_colon true m = m
after_colon false m = do expect b':'; m

two_segments : IpAddr → List ℕ
two_segments (v4 a b c d) = (a * 256 + b) ∷ (c * 256 + d) ∷ []
two_segments (v6 s) = s

-- `read_groups`: at most `limit` groups, the last two perhaps as an IPv4 address. The result holds the
-- groups and whether they end in an IPv4 address.
read_groups : ℕ → Bool → Bytes → (List ℕ × Bool) × Bytes
unfolding after_colon read_v4 read_number two_segments
read_groups zero first s = (([], false), s)
read_groups (suc limit) first s =
    let group =
      elim (after_colon first (read_number 16 4 65536) s) as (λ _. (List ℕ × Bool) × Bytes) [
        | none ↦ (([], false), s)
        | some (g, rest) ↦
            let ((gs, ends), rest') = read_groups limit false rest in ((g ∷ gs, ends), rest')
      ] in
    elim (if ltb 0 limit then after_colon first read_v4 s else none) [
      | some (ip, rest) ↦ ((two_segments ip, true), rest)
      | none ↦ group
    ]

zeros : ℕ → List ℕ
zeros zero = []
zeros (suc n) = 0 ∷ zeros n

read_v6 : Reader IpAddr
unfolding read_groups zeros
read_v6 s =
    let ((head, ends), rest) = read_groups 8 true s in
    if length head == 8 then some (v6 head, rest) else if ends then none else read_tail head rest
  where
    read_tail : List ℕ → Bytes → Option (IpAddr × Bytes)
    read_tail head s = elim ((expect b':' >> expect b':') s) [
      | none ↦ none
      | some (_, rest) ↦
          let ((tail, _), rest') = read_groups (8 - length head) true rest in
          some (v6 (head ++ (zeros (8 - length head - length tail) ++ tail)), rest')
    ]

read_socket_v6 : Reader SocketAddr
unfolding read_v6 read_port
read_socket_v6 = do
  expect b'['
  ip ← read_v6
  expect b']'
  port ← read_port
  give (record { ip = ip; port = port })

-- Nothing may stand behind the address.
abbrev till_eof : {A : Type 0} → Option (A × Bytes) → Option A
till_eof none = none
till_eof (some (a, [])) = some a
till_eof (some (a, c ∷ s)) = none

unfoldable pub parse_addr : Bytes → Option SocketAddr
unfolding read_socket_v4 read_socket_v6
parse_addr s = till_eof (elim (read_socket_v4 s) [ some r ↦ some r | none ↦ read_socket_v6 s ])

-- `str::parse::<IpAddr>()`
unfoldable pub parse_ip : Bytes → Option IpAddr
unfolding read_v4 read_v6
parse_ip s = till_eof (elim (read_v4 s) [ some r ↦ some r | none ↦ read_v6 s ])
