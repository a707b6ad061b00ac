-- ===== src/Server/Gate.antt =====
-- What a session of src/protocol/server.rs does before and after the handshake.
use tws_rust.Prelude.{
  ℕ, [], Bool, true, false, not, Option, none, some, ◌≡◌, refl, sym, ap, ◌∙◌, ◌⊎◌, inl, inr, arith,
  by_if, by_test, if_true, if_false, subst,
}
use tws_rust.Net.Addr.{SocketAddr}
use tws_rust.Util.SharedStream.Keeps.{Holds}
use tws_rust.Protocol.Packet.{
  Packet, handshake, connect, udp_connect, connection_state, payload, udp_payload, unrecognized,
}
use tws_rust.Session.Quiet.{IsQuiet}
use tws_rust.Session.Service.{close_ws}
use tws_rust.Server.State.{
  ServerOption, Server, Outcome, with_session, unwrap, allows, check_handshaked, on_unknown,
  on_handshake, on_connect, on_udp_connect, on_connect_state, on_data, on_udp_data,
}
use tws_rust.Server.Handlers.{on_packet}

-- No handshake yet: no remote, no connection and none on its way.
abbrev pub IsWaiting : Server → Type 0
IsWaiting s =
    (s.handshaked ≡ false) × (s.remote ≡ none) × (s.connecting ≡ []) × IsQuiet s.session.core

-- A session to a remote that the options allow.
abbrev pub IsOpen : ServerOption → Server → Type 0
IsOpen option s =
    (s.handshaked ≡ true)
    × ((addr : SocketAddr) × (s.remote ≡ some addr) × (allows option.accept_remotes addr ≡ true))

abbrev pub IsSound : ServerOption → SocketAddr → Server → Type 0
IsSound option client s =
    (s.option ≡ option) × (s.client ≡ some client) × (IsWaiting s ⊎ IsOpen option s)

pub unwrap-Holds :
    {A : Type 0} (P : Server → Type 0) (o : Option A) (k : Outcome)
    → Holds P k
    → Holds P (unwrap o k)
unwrap-Holds P none k p = tt
unwrap-Holds P (some a) k p = p

module _ (option : ServerOption) (client : SocketAddr) where
  abbrev pub Sound : Server → Type 0
  Sound = IsSound option client

  check_handshaked-Holds :
      (s : Server) (k : Outcome)
      → Sound s
      → (IsOpen option s → Holds Sound k)
      → Holds Sound (check_handshaked s k)
  unfolding check_handshaked close_ws
  check_handshaked-Holds s k (opt, cl, inr opened) next =
      subst (Holds Sound) (sym (if_true s.handshaked k _ opened.0)) (next opened)
  check_handshaked-Holds s k (opt, cl, inl waiting) next =
      let closed = with_session (close_ws s.session) s in
      subst (Holds Sound) (sym (if_false s.handshaked k (unwrap s.client (some closed)) waiting.0))
        (unwrap-Holds Sound s.client (some closed) (opt, cl, inl waiting))

  on_handshake-Holds :
      (now : ℕ) (addr : SocketAddr) (s : Server) → Sound s → Holds Sound (on_handshake now addr s)
  unfolding on_handshake
  on_handshake-Holds now addr s (opt, cl, phase) = unwrap-Holds Sound s.client _ (
      by_test (Holds Sound) (not (allows s.option.accept_remotes addr)) (λ bad. tt)
        (λ good.
          let allowed : allows s.option.accept_remotes addr ≡ true = ground arith in
          (
            opt,
            cl,
            inr (
              refl,
              (
                addr,
                refl,
                ap (λ (o : ServerOption). allows o.accept_remotes addr) (sym opt) ∙ allowed,
              ),
            ),
          )))

  pub on_packet-Holds :
      (now : ℕ) (bound : Bool) (p : Packet) (s : Server)
      → Sound s
      → Holds Sound (on_packet now bound p s)
  unfolding on_packet on_unknown on_connect on_udp_connect on_connect_state on_data on_udp_data
  on_packet-Holds now bound (handshake addr) s h = on_handshake-Holds now addr s h
  on_packet-Holds now bound (connect conn_id) s h =
      check_handshaked-Holds s _ h (λ o. unwrap-Holds Sound s.remote _ (h.0, h.1, inr o))
  on_packet-Holds now bound (udp_connect conn_id) s h = check_handshaked-Holds s _ h (λ o.
      by_if (Holds Sound) s.option.no_udp h (
        unwrap-Holds Sound s.remote _
          (by_if (Holds Sound) bound (unwrap-Holds Sound s.client _ (h.0, h.1, inr o)) h)))
  on_packet-Holds now bound (connection_state conn_id state) s h =
      check_handshaked-Holds s _ h (λ o. (h.0, h.1, inr o))
  on_packet-Holds now bound (payload conn_id bytes) s h =
      check_handshaked-Holds s _ h (λ o. (h.0, h.1, inr o))
  on_packet-Holds now bound (udp_payload conn_id bytes) s h =
      check_handshaked-Holds s _ h (λ o. (h.0, h.1, inr o))
  on_packet-Holds now bound unrecognized s h = check_handshaked-Holds s _ h (λ o. h)
