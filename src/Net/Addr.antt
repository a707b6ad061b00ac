-- ===== src/Net/Addr.antt =====
-- `SocketAddr`. The flow and the scope of an IPv6 address are zero throughout: the parser sets them
-- so, and the printer leaves them out.
use tws_rust.Prelude.{
  ℕ, List, [], ◌∷◌, ◌<◌, ◌≡◌, Bool, true, false, ◌&&◌, ◌||◌, ◌==◌, length, All, refl, ◌↔◌, arith,
}
use tws_rust.Prelude.Equality.{Eq}

-- The segments of an IPv6 address are eight numbers of sixteen bits.
pub data IpAddr : Type 0 where
  v4 : ℕ → ℕ → ℕ → ℕ → IpAddr
  v6 : List ℕ → IpAddr

pub record SocketAddr : Type 0 where
  pub ip : IpAddr
  pub port : ℕ

abbrev pub InRange : IpAddr → Type 0
InRange (v4 a b c d) = (a < 256) × (b < 256) × (c < 256) × (d < 256)
InRange (v6 segments) = (length segments ≡ 8) × All (λ s. s < 65536) segments

-- Equality of addresses, `Vec::contains` included.
unfoldable pub segments_eq : List ℕ → List ℕ → Bool
segments_eq [] [] = true
segments_eq [] (y ∷ ys) = false
segments_eq (x ∷ xs) [] = false
segments_eq (x ∷ xs) (y ∷ ys) = x == y && segments_eq xs ys

unfoldable pub ip_eq : IpAddr → IpAddr → Bool
unfolding segments_eq
ip_eq (v4 a b c d) (v4 a' b' c' d') = a == a' && (b == b' && (c == c' && d == d'))
ip_eq (v4 a b c d) (v6 s) = false
ip_eq (v6 s) (v4 a b c d) = false
ip_eq (v6 s) (v6 t) = segments_eq s t

unfoldable pub addr_eq : SocketAddr → SocketAddr → Bool
unfolding ip_eq
addr_eq x y = ip_eq x.ip y.ip && x.port == y.port

unfoldable pub contains_addr : List SocketAddr → SocketAddr → Bool
unfolding addr_eq
contains_addr [] a = false
contains_addr (x ∷ xs) a = addr_eq x a || contains_addr xs a

-- An IPv4 address and a port.
abbrev pub v4_addr : ℕ → ℕ → ℕ → ℕ → ℕ → SocketAddr
v4_addr a b c d port = record { ip = v4 a b c d; port = port }

segments_eq_iff : (s t : List ℕ) → (segments_eq s t ≡ true) ↔ (s ≡ t)
unfolding segments_eq
segments_eq_iff [] [] = ((λ h. refl), (λ e. refl))
segments_eq_iff [] (y ∷ ys) = ((λ h. cc), (λ e. cc))
segments_eq_iff (x ∷ xs) [] = ((λ h. cc), (λ e. cc))
segments_eq_iff (x ∷ xs) (y ∷ ys) = ground (arith, segments_eq_iff xs ys)

ip_eq_iff : (x y : IpAddr) → (ip_eq x y ≡ true) ↔ (x ≡ y)
unfolding ip_eq
ip_eq_iff (v4 a b c d) (v4 a' b' c' d') = ground arith
ip_eq_iff (v4 a b c d) (v6 t) = ((λ h. cc), (λ e. cc))
ip_eq_iff (v6 s) (v4 a b c d) = ((λ h. cc), (λ e. cc))
ip_eq_iff (v6 s) (v6 t) = ground (arith, segments_eq_iff s t)

pub addr_eq_iff : (x y : SocketAddr) → (addr_eq x y ≡ true) ↔ (x ≡ y)
unfolding addr_eq
addr_eq_iff x y = ground (arith, ip_eq_iff x.ip y.ip)

instance abbrev pub addr_key : Eq SocketAddr
addr_key = record { beq = addr_eq; beq_iff = addr_eq_iff }
