-- ===== src/Client/Safety.antt =====
-- The life of a connection on the client (src/protocol/client.rs), from pending to active to gone, as packets
-- of the server drive it.
use tws_rust.Prelude.{
  ℕ, Bool, true, false, ◌||◌, Option, none, some, ◌≡◌, refl, sym, ap, ap₂, ◌∙◌, by_if, by_test,
  if◌then◌else◌, arith,
}
use tws_rust.Text.Bytes.{Bytes, bytes_eq, bytes_eq→eq}
use tws_rust.Text.Bytes.{bytes_key}
use tws_rust.Map.{Map, get, contains_key, remove}
use tws_rust.Map.Laws.{contains_key-insert, contains_key-remove_key, get_present}
use tws_rust.Protocol.Packet.{
  Packet, handshake, connect, udp_connect, connection_state, payload, udp_payload, unrecognized,
  ConnectionState, ok_state, closed, pause, resume, is_ok_state, is_closed, is_pause, is_resume,
}
use tws_rust.Protocol.State.{connect_state_build}
use tws_rust.Session.Message.{text}
use tws_rust.Session.Connection
use tws_rust.Session.Service.{insert_connection, on_pause_resume}
use tws_rust.Session.Close.{
  contains_key-feed_ws, contains_key-feed_tcp, contains_key-on_pause_resume,
  contains_key-close_conn,
}
use tws_rust.Net.Addr.{SocketAddr}
use tws_rust.Session.ReadThrottle.{Core, UdpConnection}
use tws_rust.Client.State.{
  send_at, send_udp_to, Client, Outcome, Pending, unwrap, close_any, activate_connection,
  on_connect_state, on_unknown, on_data, on_udp_data,
}
use tws_rust.Client.Handlers.{on_packet}

-- Whether a connection is active, and whether it is pending.
abbrev pub Phase : Type 0
Phase = Bool × Bool

abbrev pub phase : Bytes → Client → Phase
phase id s = (contains_key id s.session.core.connections, contains_key id s.pending_connections)

abbrev pub move : ConnectionState → Phase → Phase
move ok_state (active, true) = (true, false)
move ok_state (active, false) = (active, false)
move closed (true, waiting) = (false, waiting)
move closed (false, waiting) = (false, false)
move pause ph = ph
move resume ph = ph

abbrev pub packet_move : Bytes → Packet → Phase → Phase
packet_move id (handshake addr) ph = ph
packet_move id (connect conn_id) ph = ph
packet_move id (udp_connect conn_id) ph = ph
packet_move id (connection_state conn_id state) ph =
    if bytes_eq conn_id id then move state ph else ph
packet_move id (payload conn_id bytes) ph = ph
packet_move id (udp_payload conn_id bytes) ph = ph
packet_move id unrecognized ph = ph

pair : {a b c d : Bool} → a ≡ c → b ≡ d → ◌≡◌ {A = Phase} (a, b) (c, d)
pair e f = ap₂ (λ x y. (x, y)) e f

-- The moves, with `same` for the question whether the packet's connection is the one that is looked at.
closed_active :
    (same a p : Bool)
    → (same ≡ true → a ≡ true)
    → ◌≡◌ {A = Phase} (if same then false else a, p) (if same then move closed (a, p) else (a, p))
closed_active false a p h = refl
closed_active true true p h = refl
closed_active true false p h = let clash : false ≡ true = h refl in absurd (ground arith)

closed_pending :
    (same a p : Bool)
    → (same ≡ true → a ≡ false)
    → ◌≡◌ {A = Phase} (a, if same then false else p) (if same then move closed (a, p) else (a, p))
closed_pending false a p h = refl
closed_pending true false p h = refl
closed_pending true true p h = let clash : true ≡ false = h refl in absurd (ground arith)

closed_unknown :
    (same a p : Bool)
    → (same ≡ true → a ≡ false)
    → (same ≡ true → p ≡ false)
    → ◌≡◌ {A = Phase} (a, p) (if same then move closed (a, p) else (a, p))
closed_unknown false a p h k = refl
closed_unknown true false false h k = refl
closed_unknown true false true h k = let clash : true ≡ false = k refl in absurd (ground arith)
closed_unknown true true p h k = let clash : true ≡ false = h refl in absurd (ground arith)

ok_pending :
    (same a p : Bool)
    → (same ≡ true → p ≡ true)
    → ◌≡◌ {A = Phase}
        (same || a, if same then false else p)
        (if same then move ok_state (a, p) else (a, p))
ok_pending false a p h = refl
ok_pending true a true h = refl
ok_pending true a false h = let clash : false ≡ true = h refl in absurd (ground arith)

ok_unknown :
    (same a p : Bool)
    → (same ≡ true → p ≡ false)
    → ◌≡◌ {A = Phase} (a, p) (if same then move ok_state (a, p) else (a, p))
ok_unknown false a p h = refl
ok_unknown true a false h = refl
ok_unknown true a true h = let clash : true ≡ false = h refl in absurd (ground arith)

stays : (same : Bool) (ph : Phase) → ph ≡ (if same then ph else ph)
stays true ph = refl
stays false ph = refl

module _ (now : ℕ) (id conn_id : Bytes) where
  abbrev same : Bool
  same = bytes_eq conn_id id

  -- The two identifiers are in the same maps, if they are the same.
  known :
      {V : Type 0} (m : Map Bytes V) (b : Bool)
      → contains_key conn_id m ≡ b
      → same ≡ true
      → contains_key id m ≡ b
  known m b h e = ap (λ k. contains_key k m) (sym (bytes_eq→eq conn_id id e)) ∙ h

  phase-close_any :
      (s : Client)
      → phase id (close_any now conn_id s) ≡ (if same then move closed (phase id s) else phase id s)
  unfolding close_any
  phase-close_any s =
      let actives = s.session.core.connections in
      let a = contains_key id actives in
      let p = contains_key id s.pending_connections in
      by_test (λ (t : Client). phase id t ≡ (if same then move closed (a, p) else (a, p)))
        (contains_key conn_id actives)
        (λ active.
          pair (contains_key-close_conn now conn_id id s.session) refl
          ∙ closed_active same a p (known actives true active))
        (λ inactive.
          by_test (λ (t : Client). phase id t ≡ (if same then move closed (a, p) else (a, p)))
            (contains_key conn_id s.pending_connections)
            (λ waiting.
              pair refl (contains_key-remove_key conn_id id s.pending_connections)
              ∙ closed_pending same a p (known actives false inactive))
            (λ unknown.
              closed_unknown same a p (known actives false inactive)
                (known s.pending_connections false unknown)))

  abbrev Moves : ConnectionState → Client → Outcome → Type 0
  Moves state s o =
      (s' : Client) × (o ≡ some s')
      × (phase id s' ≡ (if same then move state (phase id s) else phase id s))

  phase-activate_connection :
      (s : Client)
      → contains_key conn_id s.pending_connections ≡ true
      → Moves ok_state s (activate_connection now conn_id s)
  unfolding activate_connection insert_connection
  phase-activate_connection s waiting =
      let (p, e) = get_present conn_id s.pending_connections waiting in
      let create = λ (q : Pending). Connection.create q.conn_id now in
      let activated = λ (q : Pending). record s {
        pending_connections = remove conn_id s.pending_connections;
        session = insert_connection conn_id (create q) s.session;
      } in
      (
        activated p,
        ap (λ (o : Option Pending). unwrap o (λ q. some (activated q))) e,
        pair (contains_key-insert conn_id id (create p) s.session.core.connections)
              (contains_key-remove_key conn_id id s.pending_connections)
            ∙ ok_pending same (contains_key id s.session.core.connections)
                (contains_key id s.pending_connections) (known s.pending_connections true waiting),
      )

  phase-on_connect_state :
      (state : ConnectionState) (s : Client) → Moves state s (on_connect_state now conn_id state s)
  unfolding on_connect_state is_closed is_ok_state is_pause is_resume on_pause_resume
  phase-on_connect_state closed s = (close_any now conn_id s, refl, phase-close_any s)
  phase-on_connect_state pause s = (
    _,
    refl,
    pair (contains_key-on_pause_resume id conn_id pause s.session) refl ∙ stays same (phase id s),
  )
  phase-on_connect_state resume s = (
    _,
    refl,
    pair (contains_key-on_pause_resume id conn_id resume s.session) refl ∙ stays same (phase id s),
  )
  phase-on_connect_state ok_state s =
      by_test (Moves ok_state s) (contains_key conn_id s.pending_connections)
        (λ waiting. phase-activate_connection s waiting)
        (λ unknown. (
          _,
          refl,
          pair (contains_key-feed_ws id now (text (connect_state_build conn_id closed)) s.session)
                refl
              ∙ ok_unknown same (contains_key id s.session.core.connections)
                  (contains_key id s.pending_connections)
                  (known s.pending_connections false unknown),
        ))

send_at_connections :
    (bytes : Bytes) (handle : ℕ) (addr : Option SocketAddr) (core : Core)
    → (send_at bytes handle addr core).connections ≡ core.connections
send_at_connections bytes handle none core = refl
send_at_connections bytes handle (some addr) core = refl

send_udp_to_connections :
    (bytes : Bytes) (u : Option UdpConnection) (core : Core)
    → (send_udp_to bytes u core).connections ≡ core.connections
send_udp_to_connections bytes none core = refl
send_udp_to_connections bytes (some u) core = send_at_connections bytes u.handle u.addr core

-- A packet of the server never makes the client panic, and moves a connection as follows: `ok` makes a
-- pending connection active and changes nothing about any other; `closed` removes an active connection, and
-- if it is not active a pending one; no other packet moves a connection, and none moves a connection
-- that it does not name.
pub phase-on_packet :
    (now : ℕ) (id : Bytes) (packet : Packet) (s : Client)
    → (s' : Client) × (on_packet now packet s ≡ some s')
      × (phase id s' ≡ packet_move id packet (phase id s))
unfolding on_packet on_unknown on_data on_udp_data
phase-on_packet now id (handshake addr) s = (s, refl, refl)
phase-on_packet now id (connect conn_id) s = (s, refl, refl)
phase-on_packet now id (udp_connect conn_id) s = (s, refl, refl)
phase-on_packet now id (connection_state conn_id state) s =
    phase-on_connect_state now id conn_id state s
phase-on_packet now id (payload conn_id bytes) s = (
  on_data now conn_id bytes s,
  refl,
  pair (contains_key-feed_tcp id now conn_id bytes s.session) refl,
)
phase-on_packet now id (udp_payload conn_id bytes) s = (
  on_udp_data conn_id bytes s,
  refl,
  pair
      (ap (contains_key id)
        (send_udp_to_connections bytes (get conn_id s.session.core.udp_connections) s.session.core))
      refl,
)
phase-on_packet now id unrecognized s =
    (on_unknown s, refl, by_if (λ (t : Client). phase id t ≡ phase id s) s.connected refl refl)
