-- ===== src/Udp/Datagram/Empty.antt =====
-- When the table of connections of src/protocol/udp.rs is empty.
use tws_rust.Prelude.{
  ℕ, true, none, some, ◌≡◌, refl, ap, ◌∙◌, inl, inr, Option-cases, if_true, [], ◌∷◌, ◌↔◌, ◌==◌,
}
use tws_rust.Prelude.Equality.{nat_key, beq_refl}
use tws_rust.Net.Addr.{SocketAddr, addr_key}
use tws_rust.Map.{Map, get}
use tws_rust.Udp.Stream.{UdpState}
use tws_rust.Udp.Datagram.{Datagram, is_empty}
use tws_rust.Udp.Datagram.Sound.{IsSound, links}
use tws_rust.Udp.Datagram.Peers.{lookup, numbered, peer}

get_head : (id : ℕ) (s : UdpState) (m : Map ℕ UdpState) → get id ((id, s) ∷ m) ≡ some s
unfolding get
get_head id s m = if_true (id == id) _ _ (beq_refl id)

get_nothing : (id : ℕ) (m : Map ℕ UdpState) → is_empty m ≡ true → get id m ≡ none
unfolding get
get_nothing id [] e = refl
get_nothing id (x ∷ m) e = cc

-- The table of connections is empty exactly if no peer has one.
pub is_empty-peer :
    (d : Datagram)
    → IsSound d
    → (is_empty d.conn_states ≡ true) ↔ ((addr : SocketAddr) → peer addr d ≡ none)
is_empty-peer d h = go d.conn_states refl
  where
    go :
        (m : Map ℕ UdpState)
        → d.conn_states ≡ m
        → (is_empty m ≡ true) ↔ ((addr : SocketAddr) → peer addr d ≡ none)
    go [] e = (
      (λ x addr. elim (Option-cases (get addr d.conn_states_reverse_map)) [
        | inl away ↦ rw away refl
        | inr (i, away) ↦
            ap (λ o. lookup o d.conn_states) away
            ∙ ap (λ m. numbered i (get i m)) e
            ∙ ap (numbered i) (get_nothing i [] refl)
      ]),
      (λ x. refl),
    )
    go ((id, s) ∷ m) e = (
      (λ x. cc),
      (λ nobody.
          let there : get id d.conn_states ≡ some s = ap (get id) e ∙ get_head id s m in
          let back = ((links d h).1 id s there).0 in
          let known : peer s.remote d ≡ some (id, s) =
            ap (λ o. lookup o d.conn_states) back ∙ ap (numbered id) there in
          cc (known, nobody s.remote)),
    )
