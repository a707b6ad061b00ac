-- ===== src/Udp/Datagram/Idle.antt =====
-- The idle connections that `UdpDatagram::poll` of src/protocol/udp.rs removes.
use tws_rust.Prelude.{
  ℕ, ◌==◌, List, [], ◌∷◌, Bool, true, false, ◌||◌, if◌then◌else◌, Option, none, some, ◌≡◌, refl,
  sym, ap, ◌∙◌, arith, inl, inr, Bool-cases, Option-cases, ==_iff,
}
use tws_rust.Prelude.Equality.{nat_key}
use tws_rust.Net.Addr.{SocketAddr, addr_key}
use tws_rust.Map.{Map, get}
use tws_rust.Map.Laws.{get-remove}
use tws_rust.Map.Distinct.{distinct, get-rest}
use tws_rust.Udp.Stream.{UdpState}
use tws_rust.Udp.Datagram.{Datagram, remove_conn, remove_conns, idle_ids, is_idle, purge}
use tws_rust.Udp.Datagram.Sound.{IsSound, links, remove_conn-Keeps}
use tws_rust.Udp.Datagram.Peers.{peer, on_conn, on_conn-peer, on_conn-some, same_number}

abbrev pub unless : Bool → UdpState → Option UdpState
unless b s = if b then none else some s

peer-remove_conn :
    (i : ℕ) (addr : SocketAddr) (d : Datagram)
    → IsSound d
    → peer addr (remove_conn i d) ≡ on_conn (λ id s. unless (i == id) s) (peer addr d)
unfolding remove_conn
peer-remove_conn i addr d h = elim (Option-cases (get i d.conn_states)) [
  | inl gone ↦
      let same : peer addr (remove_conn i d) ≡ peer addr d = rw gone refl in
      same
      ∙ sym (on_conn-some (peer addr d))
      ∙ on_conn-peer (λ id s. some s) (λ id s. unless (i == id) s) addr d
          (λ id s e there. ground arith)
  | inr (conn, there) ↦ elim (Option-cases (get addr d.conn_states_reverse_map)) [
    | inl e ↦ rw (there, get-remove conn.remote addr d.conn_states_reverse_map, e) (ground arith)
    | inr (j, e) ↦
        let (s, there', remote) = (links d h).0 addr j e in
        let same = same_number d conn.remote addr i j h ((links d h).1 i conn there).0 e in
        elim (Bool-cases (i == j)) [
          | inl yours ↦
              rw
                (
                  there,
                  get-remove conn.remote addr d.conn_states_reverse_map,
                  sym same,
                  e,
                  there',
                  yours,
                )
                refl
          | inr mine ↦
              rw
                (
                  there,
                  get-remove conn.remote addr d.conn_states_reverse_map,
                  sym same,
                  e,
                  mine,
                  get-remove i j d.conn_states,
                  there',
                  mine,
                )
                refl
        ]
  ]
]

abbrev mem : ℕ → List ℕ → Bool
mem id [] = false
mem id (i ∷ ids) = i == id || mem id ids

on_conn-on_conn :
    (i : ℕ) (ids : List ℕ) (o : Option (ℕ × UdpState))
    → on_conn (λ id s. unless (mem id ids) s) (on_conn (λ id s. unless (i == id) s) o)
      ≡ on_conn (λ id s. unless (mem id (i ∷ ids)) s) o
on_conn-on_conn i ids none = refl
on_conn-on_conn i ids (some (id, s)) = ground arith

peer-remove_conns :
    (ids : List ℕ) (addr : SocketAddr) (d : Datagram)
    → IsSound d
    → peer addr (remove_conns ids d) ≡ on_conn (λ id s. unless (mem id ids) s) (peer addr d)
unfolding remove_conns
peer-remove_conns [] addr d h = sym (on_conn-some (peer addr d))
peer-remove_conns (i ∷ ids) addr d h =
    peer-remove_conns ids addr (remove_conn i d) (remove_conn-Keeps i d h).0
    ∙ ap (on_conn (λ id s. unless (mem id ids) s)) (peer-remove_conn i addr d h)
    ∙ on_conn-on_conn i ids (peer addr d)

mem-idle_ids :
    (now timeout id : ℕ) (m : Map ℕ UdpState)
    → distinct m ≡ true
    → mem id (idle_ids now timeout m)
      ≡ (elim (get id m) [ none ↦ false | some s ↦ is_idle now timeout s ])
unfolding idle_ids get distinct
mem-idle_ids now timeout id [] h = refl
mem-idle_ids now timeout id ((i, s) ∷ m) h = elim (Bool-cases (i == id)) [
  | inl same ↦
      let gone : get id m ≡ none =
        ap (λ x. get x m) (sym ((==_iff i id).0 same)) ∙ get-rest i s m h in
      let rest : mem id (idle_ids now timeout m) ≡ false =
        mem-idle_ids now timeout id m (ground arith) ∙ rw gone refl in
      ground arith
  | inr other ↦ ground (arith, mem-idle_ids now timeout id m)
]

-- The connections with no activity for the timeout go, the others stay.
pub peer-purge :
    (now : ℕ) (addr : SocketAddr) (d : Datagram)
    → IsSound d
    → peer addr (purge now d) ≡ on_conn (λ id s. unless (is_idle now d.timeout s) s) (peer addr d)
unfolding purge
peer-purge now addr d h =
    peer-remove_conns (idle_ids now d.timeout d.conn_states) addr d h
    ∙ on_conn-peer _ _ addr d (λ id s e there.
      ap (λ b. unless b s) (mem-idle_ids now d.timeout id d.conn_states h.1 ∙ rw there refl))
