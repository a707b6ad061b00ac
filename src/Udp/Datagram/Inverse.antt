-- ===== src/Udp/Datagram/Inverse.antt =====
-- The two maps of a `UdpDatagram` of src/protocol/udp.rs: which connection has which number.
use tws_rust.Prelude.{
  ℕ, ◌<◌, ◌==◌, Option, none, some, ◌≡◌, refl, sym, ap, ◌∙◌, arith, inl, inr, Bool-cases,
  Option-cases, subst,
}
use tws_rust.Prelude.Equality.{nat_key, beq_refl}
use tws_rust.Net.Addr.{SocketAddr, addr_key, addr_eq, addr_eq_iff}
use tws_rust.Map.{Map, get, insert, remove, modify}
use tws_rust.Map.Laws.{get-insert, get-remove, get-modify}
use tws_rust.Util.SharedStream.Keeps.{Holds}
use tws_rust.Udp.Stream.{UdpState}

-- Each address that has a number is the peer of the connection with this number; each connection's number
-- is what its peer has, and is below the counter.
abbrev pub IsInverse : Map ℕ UdpState → Map SocketAddr ℕ → ℕ → Type 0
IsInverse conns reverse counter =
    ((addr : SocketAddr)
      → Holds (λ id. (s : UdpState) × (get id conns ≡ some s) × (s.remote ≡ addr))
          (get addr reverse))
    × ((id : ℕ)
        → Holds (λ (s : UdpState). (get s.remote reverse ≡ some id) × (id < counter))
            (get id conns))

-- The same, for what a map is known to hold.
abbrev pub Linked : Map ℕ UdpState → Map SocketAddr ℕ → ℕ → Type 0
Linked conns reverse counter =
    ((addr : SocketAddr) (id : ℕ)
      → get addr reverse ≡ some id
      → (s : UdpState) × (get id conns ≡ some s) × (s.remote ≡ addr))
    × ((id : ℕ) (s : UdpState)
        → get id conns ≡ some s
        → (get s.remote reverse ≡ some id) × (id < counter))

holds : {A : Type 0} (P : A → Type 0) (o : Option A) → ((a : A) → o ≡ some a → P a) → Holds P o
holds P none f = tt
holds P (some a) f = f a refl

pub linked : (m : Map ℕ UdpState) (r : Map SocketAddr ℕ) (c : ℕ) → IsInverse m r c → Linked m r c
linked m r c inv = (
  (λ addr id e.
      subst (Holds (λ id. (s : UdpState) × (get id m ≡ some s) × (s.remote ≡ addr))) e
        (inv.0 addr)),
  (λ id s e. subst (Holds (λ (s : UdpState). (get s.remote r ≡ some id) × (id < c))) e (inv.1 id)),
)

pub unlinked : (m : Map ℕ UdpState) (r : Map SocketAddr ℕ) (c : ℕ) → Linked m r c → IsInverse m r c
unlinked m r c l = ((λ addr. holds _ (get addr r) (l.0 addr)), (λ id. holds _ (get id m) (l.1 id)))

module _ (m : Map ℕ UdpState) (r : Map SocketAddr ℕ) (c : ℕ) (inv : IsInverse m r c) where
  pub modify-IsInverse :
      (id : ℕ) (f : UdpState → UdpState)
      → ((s : UdpState) → (f s).remote ≡ s.remote)
      → IsInverse (modify id f m) r c
  modify-IsInverse id f keeps = unlinked (modify id f m) r c (
    (λ addr j e.
        let (s, g, peer) = (linked m r c inv).0 addr j e in
        elim (Bool-cases (id == j)) [
          | inl same ↦ (f s, get-modify id j f m ∙ rw (same, g) refl, keeps s ∙ peer)
          | inr other ↦ (s, get-modify id j f m ∙ rw other g, peer)
        ]),
    (λ j s e.
        let found = sym (get-modify id j f m) ∙ e in
        elim (Bool-cases (id == j)) [
          | inl same ↦ elim (Option-cases (get j m)) [
            | inl missing ↦ absurd (ground arith)
            | inr (s', here) ↦
                let is : f s' ≡ s = ground arith in
                let (back, bound) = (linked m r c inv).1 j s' here in
                (
                  ap (λ (x : UdpState). get x.remote r) (sym is)
                      ∙ ap (λ a. get a r) (keeps s')
                      ∙ back,
                  bound,
                )
          ]
          | inr other ↦ (linked m r c inv).1 j s (ground arith)
        ]),
  )

  pub remove-IsInverse :
      (id : ℕ) (conn : UdpState)
      → get id m ≡ some conn
      → IsInverse (remove id m) (remove conn.remote r) c
  remove-IsInverse id conn g = unlinked (remove id m) (remove conn.remote r) c (
    (λ addr j e.
        let left = sym (get-remove conn.remote addr r) ∙ e in
        elim (Bool-cases (addr_eq conn.remote addr)) [
          | inl same ↦ absurd (ground arith)
          | inr other ↦
              let (s, g', peer) = (linked m r c inv).0 addr j (ground arith) in
              elim (Bool-cases (id == j)) [
                | inl twice ↦ absurd (
                    let one : conn ≡ s = ground arith in
                    ground
                      (arith, addr_eq_iff conn.remote addr, ap (λ (x : UdpState). x.remote) one))
                | inr apart ↦ (s, get-remove id j m ∙ rw apart g', peer)
              ]
        ]),
    (λ j s e.
        let left = sym (get-remove id j m) ∙ e in
        elim (Bool-cases (id == j)) [
          | inl same ↦ absurd (ground arith)
          | inr other ↦
              let (back, bound) = (linked m r c inv).1 j s (ground arith) in
              elim (Bool-cases (addr_eq conn.remote s.remote)) [
                | inl twice ↦ absurd (
                    let one : get conn.remote r ≡ some j =
                      ap (λ a. get a r) ((addr_eq_iff conn.remote s.remote).0 twice) ∙ back in
                    ground (arith, ((linked m r c inv).1 id conn g).0))
                | inr apart ↦ (get-remove conn.remote s.remote r ∙ rw apart back, bound)
              ]
        ]),
  )

  pub insert-IsInverse :
      (conn : UdpState) (next : ℕ)
      → get conn.remote r ≡ none
      → c < next
      → IsInverse (insert c conn m) (insert conn.remote c r) next
  insert-IsInverse conn next fresh more = unlinked (insert c conn m) (insert conn.remote c r) next (
    (λ addr j e.
        let found = sym (get-insert conn.remote addr c r) ∙ e in
        elim (Bool-cases (addr_eq conn.remote addr)) [
          | inl same ↦
              let is : c ≡ j = ground arith in
              (conn, get-insert c j conn m ∙ ground arith, (addr_eq_iff conn.remote addr).0 same)
          | inr other ↦
              let (s, g, peer) = (linked m r c inv).0 addr j (ground arith) in
              let below = ((linked m r c inv).1 j s g).1 in
              (s, get-insert c j conn m ∙ ground arith, peer)
        ]),
    (λ j s e.
        let found = sym (get-insert c j conn m) ∙ e in
        elim (Bool-cases (c == j)) [
          | inl same ↦
              let is : conn ≡ s = ground arith in
              (
                ap (λ (x : UdpState). get x.remote (insert conn.remote c r)) (sym is)
                    ∙ get-insert conn.remote conn.remote c r
                    ∙ ground (arith, beq_refl conn.remote),
                ground arith,
              )
          | inr other ↦
              let (back, bound) = (linked m r c inv).1 j s (ground arith) in
              elim (Bool-cases (addr_eq conn.remote s.remote)) [
                | inl twice ↦ absurd (
                    let one : get conn.remote r ≡ some j =
                      ap (λ a. get a r) ((addr_eq_iff conn.remote s.remote).0 twice) ∙ back in
                    ground arith)
                | inr apart ↦ (
                  get-insert conn.remote s.remote c r ∙ rw apart back,
                  omega (arith, bound, more),
                )
              ]
        ]),
  )
