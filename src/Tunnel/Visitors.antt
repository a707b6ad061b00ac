-- ===== src/Tunnel/Visitors.antt =====
-- The first packet of a UDP client, from the client's session (src/protocol/client.rs) to the socket that the server's
-- (src/protocol/server.rs) opens for it.
use tws_rust.Prelude.{
  ℕ, List, [], ◌∷◌, ◌++◌, ◌==◌, length, true, false, none, some, ok, ◌≡◌, ◌≢◌, refl, ap, ◌∙◌,
  if_true, if_false, arith, inl, inr, Bool-cases, append_assoc,
}
use tws_rust.Prelude.Int.{ℤ}
use tws_rust.Prelude.Equality.{nat_key, beq_refl}
use tws_rust.Text.Bytes.{Bytes, bytes_key}
use tws_rust.Net.Addr.{SocketAddr}
use tws_rust.Map.{Map, get, insert}
use tws_rust.Map.Laws.{get-insert}
use tws_rust.Util.RandStr.{rand_str}
use tws_rust.Protocol.Auth.{Crypto}
use tws_rust.Protocol.Auth.RoundTrip.{TextCodes}
use tws_rust.Protocol.ConnId.{IsConnId}
use tws_rust.Protocol.Connect.{udp_connect_build}
use tws_rust.Protocol.Data.{udp_data_build}
use tws_rust.Protocol.Packet.{Packet}
use tws_rust.Protocol.Exchange.{parse_packet-udp_connect_build}
use tws_rust.Session.Message.{text, binary}
use tws_rust.Session.ReadThrottle.{UdpConnection}
use tws_rust.Session.Service.{feed_ws, forward_udp, with_udp}
use tws_rust.Session.UdpTable.{udp_connections-feed_ws}
use tws_rust.Udp.Handle.{Handle}
use tws_rust.Udp.Handle
use tws_rust.Server.State.{Server, check_handshaked, on_udp_connect, unwrap}
use tws_rust.Server.State as ServerState
use tws_rust.Server.Handlers as ServerHandlers
use tws_rust.Client.State.{Client, with_session, add_udp_connection}
use tws_rust.Client.Handlers.{on_local_udp_data}
use tws_rust.Client.Request.{Visits}
use tws_rust.Session.Writer.{queue-feed_ws, finished-feed_ws}
use tws_rust.Tunnel.Datagrams.{server_queues}

get_last :
    {V : Type 0} (n : ℕ) (v : V) (m : Map ℕ V) → get n m ≡ none → get n (m ++ (n, v) ∷ []) ≡ some v
unfolding get
get_last n v [] e = rw (beq_refl n) refl
get_last n v ((k, w) ∷ m) e = elim (Bool-cases (k == n)) [
  | inl same ↦ absurd (ground arith)
  | inr other ↦ ground (arith, get_last n v m (ground arith))
]

-- The server opens a socket of its own for the connection that is requested.
opened_socket :
    (c : Crypto) (time : ℤ) (now : ℕ) (id packet : Bytes) (addr client : SocketAddr) (t : Server)
    → TextCodes c
    → IsConnId id
    → udp_connect_build c t.option.passwd id ≡ ok packet
    → t.option.no_udp ≡ false
    → t.handshaked ≡ true
    → t.remote ≡ some addr
    → t.client ≡ some client
    → get (length t.session.core.handles) t.session.core.handles ≡ none
    → (t' : Server) × (u : UdpConnection) × (ServerHandlers.on_message c time now true
          (text packet)
          t
        ≡ some t')
      × (t'.handshaked ≡ t.handshaked)
      × (get id t'.session.core.udp_connections ≡ some u)
      × (get u.handle t'.session.core.handles ≡ some Handle.new)
unfolding ServerHandlers.on_message ServerHandlers.on_packet on_udp_connect check_handshaked
opened_socket c time now id packet addr client t codes_text valid built allowed opened r cl free =
    let core = t.session.core in
    let u : UdpConnection = record { handle = length core.handles; addr = none } in
    let t' =
      ServerState.with_session
        (record t.session {
          core = record core {
            udp_connections = insert id u core.udp_connections;
            handles = core.handles ++ (length core.handles, Handle.new) ∷ [];
          };
        })
        t in
    (
      t',
      u,
      ap (λ (p : Packet). ServerHandlers.on_packet now true p t)
            (parse_packet-udp_connect_build c codes_text t.option.passwd time id valid built)
          ∙ if_true t.handshaked _ _ opened
          ∙ if_false t.option.no_udp _ _ allowed
          ∙ ap (λ o. unwrap o (unwrap t.client (some t'))) r
          ∙ ap (λ o. unwrap o (some t')) cl,
      refl,
      get-insert id id u core.udp_connections ∙ rw (beq_refl id) refl,
      get_last (length core.handles) Handle.new core.handles free,
    )

-- The first packet of a UDP client, if it has some data, gets to its remote though nobody waits for an answer to the
-- request. The client's session, whose writer is open, has the connection at once, with the client's address, and the
-- request and then the packet are the last messages of its queue. When the server gets these two, nothing panics, and
-- the packet is what waits to be sent in a new socket of the connection's own: if the server has had its handshake,
-- has the same password, allows UDP, can have a socket, and numbers it as no other.
pub add_udp_connection-followed :
    (c : Crypto) (time : ℤ) (now now' : ℕ) (draws : List ℕ) (id packet bytes : Bytes)
    (visitor addr client : SocketAddr) (s : Client) (t : Server)
    → TextCodes c
    → rand_str draws ≡ some id
    → IsConnId id
    → bytes ≢ []
    → udp_connect_build c s.option.passwd id ≡ ok packet
    → t.option.passwd ≡ s.option.passwd
    → s.session.writer.finished ≡ false
    → t.option.no_udp ≡ false
    → t.handshaked ≡ true
    → t.remote ≡ some addr
    → t.client ≡ some client
    → get (length t.session.core.handles) t.session.core.handles ≡ none
    → (s' : Client) × (t' : Server) × (t'' : Server) × (u : UdpConnection) × (h : Handle)
      × (add_udp_connection c now draws visitor s ≡ some s')
      × Visits visitor id s'
      × ((on_local_udp_data now id bytes s').session.writer.queue
          ≡ s.session.writer.queue ++ text packet ∷ binary (udp_data_build id bytes) ∷ [])
      × (ServerHandlers.on_message c time now' true (text packet) t ≡ some t')
      × (ServerHandlers.on_message c time now' true (binary (udp_data_build id bytes)) t'
          ≡ some t'')
      × (get id t'.session.core.udp_connections ≡ some u)
      × (get u.handle t''.session.core.handles ≡ some h)
      × (h.buf ≡ (none, bytes) ∷ [])
unfolding add_udp_connection on_local_udp_data forward_udp Handle.new
add_udp_connection-followed c time now now' draws id packet bytes visitor addr client s t codes_text
      drawn valid some_bytes built shared live allowed opened r cl free =
    let conn : UdpConnection = record { handle = 0; addr = some visitor } in
    let there = with_udp (insert id conn s.session.core.udp_connections) s.session in
    let asked = feed_ws now (text packet) there in
    let (t', u, e, still, own, new_socket) =
      opened_socket c time now' id packet addr client t codes_text valid (rw shared built) allowed
        opened r cl free in
    let (t'', e', (h, found, waits)) =
      server_queues c time now' true id bytes t' u Handle.new valid some_bytes (still ∙ opened) own
        new_socket (omega arith) in
    (
      with_session asked s,
      t',
      t'',
      u,
      h,
      rw (drawn, built) refl,
      ap (get id) (udp_connections-feed_ws now (text packet) there)
          ∙ get-insert id id conn s.session.core.udp_connections
          ∙ rw (beq_refl id) refl,
      queue-feed_ws now (binary (udp_data_build id bytes)) asked
            (finished-feed_ws now (text packet) there ∙ live)
          ∙ ap (λ q. q ++ binary (udp_data_build id bytes) ∷ [])
              (queue-feed_ws now (text packet) there live)
          ∙ append_assoc s.session.writer.queue (text packet ∷ [])
              (binary (udp_data_build id bytes) ∷ []),
      e,
      e',
      own,
      found,
      waits,
    )
