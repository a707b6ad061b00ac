-- ===== src/Net/RoundTrip.antt =====
-- An IPv4 address survives `addr_to_str` and `str_to_addr`.
use tws_rust.Prelude.{
  ℕ, ◌≤◌, ◌<◌, [], ◌∷◌, ◌++◌, ◌≡◌, ◌≢◌, sym, true, arith, All, All-append, append_assoc, ◌⊎◌, inr,
  length, length-append, ok,
}
use tws_rust.Text.Bytes.{Bytes, Lacks}
use tws_rust.Text.Decimal.{digits}
use tws_rust.Text.Decimal.RoundTrip.{IsDigit, digits-IsDigit}
use tws_rust.Text.Search.{remove, remove_none, contains}
use tws_rust.Net.Addr.{v4, InRange}
use tws_rust.Net.Show.{show_u8, show_u16, show_v4, show_addr}
use tws_rust.Net.Convert.{addr_to_str, str_to_addr}
use tws_rust.Net.Numbers.{parse_addr-show_addr}

NoDigit : ℕ → Type 0
NoDigit c = (c < b'0') ⊎ (b'9' < c)

digits-Lacks : (c f n : ℕ) → NoDigit c → Lacks c (digits f n)
unfolding NoDigit
digits-Lacks c f n h = go (digits f n) (digits-IsDigit f n)
  where
    go : (s : Bytes) → All IsDigit s → Lacks c s
    go [] k = tt
    go (x ∷ s) k = ((λ e. omega arith), go s k.1)

show_v4-Lacks : (x a b c d : ℕ) → NoDigit x → x ≢ b'.' → Lacks x (show_v4 a b c d)
unfolding show_v4 show_u8
show_v4-Lacks x a b c d h k =
    let dot : b'.' ≢ x = λ e. k (sym e) in
    All-append _ (digits 3 a) _ (digits-Lacks x 3 a h) (
      dot,
      All-append _ (digits 3 b) _ (digits-Lacks x 3 b h)
          (dot, All-append _ (digits 3 c) _ (digits-Lacks x 3 c h) (dot, digits-Lacks x 3 d h)),
    )

-- The print of an IPv4 socket address holds digits, dots and a colon.
show_addr-Lacks :
    (x a b c d port : ℕ)
    → NoDigit x
    → x ≢ b'.'
    → x ≢ b':'
    → Lacks x (show_addr (record { ip = v4 a b c d; port = port }))
unfolding show_addr show_u16
show_addr-Lacks x a b c d port h k l =
    All-append _ (show_v4 a b c d) _ (show_v4-Lacks x a b c d h k)
      ((λ e. l (sym e)), digits-Lacks x 5 port h)

pub addr_to_str-v4 :
    (a b c d port : ℕ)
    → addr_to_str (record { ip = v4 a b c d; port = port })
      ≡ show_addr (record { ip = v4 a b c d; port = port })
unfolding addr_to_str NoDigit
addr_to_str-v4 a b c d port =
    let text = show_addr (record { ip = v4 a b c d; port = port }) in
    let no_open : remove b'[' text ≡ text =
      remove_none b'[' text
        (show_addr-Lacks b'[' a b c d port (inr (omega arith)) (omega arith) (omega arith)) in
    let no_close : remove b']' text ≡ text =
      remove_none b']' text
        (show_addr-Lacks b']' a b c d port (inr (omega arith)) (omega arith) (omega arith)) in
    rw no_open no_close

contains-append : (c : ℕ) (s t : Bytes) → contains c (s ++ c ∷ t) ≡ true
unfolding contains
contains-append c [] t = ground arith
contains-append c (x ∷ s) t = ground (arith, contains-append c s t)

contains-show_addr :
    (a b c d port : ℕ) → contains b'.' (show_addr (record { ip = v4 a b c d; port = port })) ≡ true
unfolding show_addr show_v4
contains-show_addr a b c d port = simp append_assoc (contains-append b'.' (show_u8 a) _)

-- An IPv4 address and a port are read back from what `addr_to_str` writes.
pub str_to_addr-addr_to_str :
    (a b c d port : ℕ)
    → InRange (v4 a b c d)
    → port < 65536
    → str_to_addr (addr_to_str (record { ip = v4 a b c d; port = port }))
      ≡ ok (record { ip = v4 a b c d; port = port })
unfolding str_to_addr
str_to_addr-addr_to_str a b c d port h k = rw (
  addr_to_str-v4 a b c d port,
  contains-show_addr a b c d port,
  parse_addr-show_addr a b c d port h k,
)

-- The bytes of an IPv4 socket address.
pub addr_to_str-bytes :
    (a b c d port : ℕ)
    → All (λ x. (b'.' ≤ x) × (x ≤ b':')) (addr_to_str (record { ip = v4 a b c d; port = port }))
unfolding show_addr show_v4 show_u8 show_u16
addr_to_str-bytes a b c d port = rw (addr_to_str-v4 a b c d port) (
    All-append _ (show_v4 a b c d) _
      (All-append _ (digits 3 a) _ (inside (digits 3 a) (digits-IsDigit 3 a)) (
        omega arith,
        All-append _ (digits 3 b) _ (inside (digits 3 b) (digits-IsDigit 3 b)) (
          omega arith,
          All-append _ (digits 3 c) _ (inside (digits 3 c) (digits-IsDigit 3 c))
              (omega arith, inside (digits 3 d) (digits-IsDigit 3 d)),
        ),
      ))
      (omega arith, inside (digits 5 port) (digits-IsDigit 5 port)))
  where
    inside : (s : Bytes) → All IsDigit s → All (λ x. (b'.' ≤ x) × (x ≤ b':')) s
    inside [] h = tt
    inside (x ∷ s) h = (omega arith, inside s h.1)

pub addr_to_str-ne-nil :
    (a b c d port : ℕ) → 0 < length (addr_to_str (record { ip = v4 a b c d; port = port }))
unfolding show_addr show_v4
addr_to_str-ne-nil a b c d port =
    rw (addr_to_str-v4 a b c d port)
      (omega (arith, length-append (show_v4 a b c d) (b':' ∷ show_u16 port)))
