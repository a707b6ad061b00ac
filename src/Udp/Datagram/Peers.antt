-- ===== src/Udp/Datagram/Peers.antt =====
-- What a poll of `UdpDatagram` of src/protocol/udp.rs does for each peer, whatever the numbers are.
use tws_rust.Prelude.{
  ℕ, ◌==◌, Bool, false, if◌then◌else◌, Option, none, some, ◌≡◌, refl, sym, ap, ◌∙◌, arith, inl, inr,
  Bool-cases, Option-cases,
}
use tws_rust.Prelude.Equality.{nat_key, beq_refl}
use tws_rust.Net.Addr.{SocketAddr, addr_key, addr_eq, addr_eq_iff}
use tws_rust.Map.{Map, get, modify}
use tws_rust.Map.Laws.{get-insert, get-modify}
use tws_rust.Udp.Stream.{UdpState}
use tws_rust.Udp.Datagram.{Datagram, add_conn, touch, touch_id, touch_target}
use tws_rust.Udp.Datagram.Sound.{IsSound, links}

-- A peer's connection with its number.
abbrev pub numbered : ℕ → Option UdpState → Option (ℕ × UdpState)
numbered id none = none
numbered id (some s) = some (id, s)

abbrev pub lookup : Option ℕ → Map ℕ UdpState → Option (ℕ × UdpState)
lookup none m = none
lookup (some id) m = numbered id (get id m)

abbrev pub peer : SocketAddr → Datagram → Option (ℕ × UdpState)
peer addr d = lookup (get addr d.conn_states_reverse_map) d.conn_states

abbrev pub on_conn :
    (ℕ → UdpState → Option UdpState) → Option (ℕ × UdpState) → Option (ℕ × UdpState)
on_conn f none = none
on_conn f (some (id, s)) = numbered id (f id s)

-- Two peers with one number are one.
pub same_number :
    (d : Datagram) (a b : SocketAddr) (i j : ℕ)
    → IsSound d
    → get a d.conn_states_reverse_map ≡ some i
    → get b d.conn_states_reverse_map ≡ some j
    → (i == j) ≡ addr_eq a b
same_number d a b i j h p q =
    let (s, gi, sa) = (links d h).0 a i p in
    let (t, gj, tb) = (links d h).0 b j q in
    elim (Bool-cases (i == j)) [
      | inl same ↦
          let one : s ≡ t = ground arith in
          same ∙ sym ((addr_eq_iff a b).1 (sym sa ∙ ap (λ (x : UdpState). x.remote) one ∙ tb))
      | inr apart ↦ elim (Bool-cases (addr_eq a b)) [
        | inl twice ↦
            let both : get a d.conn_states_reverse_map ≡ some j =
              ap (λ x. get x d.conn_states_reverse_map) ((addr_eq_iff a b).0 twice) ∙ q in
            absurd (ground arith)
        | inr other ↦ apart ∙ sym other
      ]
    ]

-- What is sent counts for the peer that it goes to.
abbrev pub is_target : Option SocketAddr → SocketAddr → ℕ → Bool
is_target none addr id = id == 0
is_target (some a) addr id = addr_eq a addr

abbrev pub touched : ℕ → Option SocketAddr → SocketAddr → ℕ → UdpState → Option UdpState
touched now target addr id s = some (if is_target target addr id then touch now s else s)

peer_by_number :
    (i : ℕ) (f : UdpState → UdpState) (addr : SocketAddr) (d : Datagram)
    → peer addr (record d { conn_states = modify i f d.conn_states })
      ≡ on_conn (λ id s. some (if i == id then f s else s)) (peer addr d)
peer_by_number i f addr d = elim (Option-cases (get addr d.conn_states_reverse_map)) [
  | inl e ↦ rw e refl
  | inr (j, e) ↦ elim (Option-cases (get j d.conn_states)) [
    | inl g ↦ rw (e, get-modify i j f d.conn_states, g) (ground arith)
    | inr (s, g) ↦ rw (e, get-modify i j f d.conn_states, g) (ground arith)
  ]
]

pub on_conn-peer :
    (f g : ℕ → UdpState → Option UdpState) (addr : SocketAddr) (d : Datagram)
    → ((id : ℕ) (s : UdpState)
        → get addr d.conn_states_reverse_map ≡ some id
        → get id d.conn_states ≡ some s
        → f id s ≡ g id s)
    → on_conn f (peer addr d) ≡ on_conn g (peer addr d)
on_conn-peer f g addr d h = elim (Option-cases (get addr d.conn_states_reverse_map)) [
  | inl e ↦ rw e refl
  | inr (j, e) ↦ elim (Option-cases (get j d.conn_states)) [
    | inl there ↦ rw (e, there) refl
    | inr (s, there) ↦ rw (e, there) (ap (numbered j) (h j s e there))
  ]
]

pub on_conn-some : (o : Option (ℕ × UdpState)) → on_conn (λ id s. some s) o ≡ o
on_conn-some none = refl
on_conn-some (some (id, s)) = refl

-- What is done to the connection that a peer has is done for this peer only.
pub peer-modify :
    (i : ℕ) (f : UdpState → UdpState) (a addr : SocketAddr) (d : Datagram)
    → IsSound d
    → get a d.conn_states_reverse_map ≡ some i
    → peer addr (record d { conn_states = modify i f d.conn_states })
      ≡ on_conn (λ id s. some (if addr_eq a addr then f s else s)) (peer addr d)
peer-modify i f a addr d h e =
    peer_by_number i f addr d
    ∙ on_conn-peer (λ id s. some (if i == id then f s else s))
        (λ id s. some (if addr_eq a addr then f s else s)) addr d
        (λ id s e' there. rw (same_number d a addr i id h e e') refl)

pub peer-touch_target :
    (now : ℕ) (target : Option SocketAddr) (addr : SocketAddr) (d : Datagram)
    → IsSound d
    → peer addr (touch_target now target d) ≡ on_conn (touched now target addr) (peer addr d)
peer-touch_target now none addr d h =
    peer_by_number 0 (touch now) addr d
    ∙ on_conn-peer (λ id s. some (if 0 == id then touch now s else s)) (touched now none addr) addr
        d (λ id s e there. ground arith)
peer-touch_target now (some a) addr d h = elim (Option-cases (get a d.conn_states_reverse_map)) [
  | inl e ↦
      let same : peer addr (touch_id now (get a d.conn_states_reverse_map) d) ≡ peer addr d =
        rw e refl in
      same
      ∙ sym (on_conn-some (peer addr d))
      ∙ on_conn-peer (λ id s. some s) (touched now (some a) addr) addr d
          (λ id s e' there. elim (Bool-cases (addr_eq a addr)) [
            | inl twice ↦ absurd (
                let both =
                  ap (λ x. get x d.conn_states_reverse_map) ((addr_eq_iff a addr).0 twice) in
                ground arith)
            | inr other ↦ rw other refl
          ])
  | inr (i, e) ↦
      let same : peer addr (touch_id now (get a d.conn_states_reverse_map) d)
          ≡ peer addr (touch_id now (some i) d) =
        rw e refl in
      same ∙ peer-modify i (touch now) a addr d h e
]

-- A new connection is its peer's.
pub peer-add_conn :
    (conn : UdpState) (addr : SocketAddr) (d : Datagram)
    → IsSound d
    → peer addr (add_conn conn d)
      ≡ (if addr_eq conn.remote addr then some (d.counter, conn) else peer addr d)
unfolding add_conn
peer-add_conn conn addr d h = elim (Bool-cases (addr_eq conn.remote addr)) [
  | inl same ↦
      rw
        (
          get-insert conn.remote addr d.counter d.conn_states_reverse_map,
          same,
          get-insert d.counter d.counter conn d.conn_states,
          beq_refl d.counter,
        )
        refl
  | inr other ↦ elim (Option-cases (get addr d.conn_states_reverse_map)) [
    | inl e ↦ rw (get-insert conn.remote addr d.counter d.conn_states_reverse_map, other, e) refl
    | inr (j, e) ↦
        let (s, there, own) = (links d h).0 addr j e in
        let bound = ((links d h).1 j s there).1 in
        let apart : (d.counter == j) ≡ false = ground arith in
        rw
          (
            get-insert conn.remote addr d.counter d.conn_states_reverse_map,
            other,
            e,
            get-insert d.counter j conn d.conn_states,
            apart,
          )
          refl
  ]
]
