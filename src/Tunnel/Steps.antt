-- ===== src/Tunnel/Steps.antt =====
-- The two halves of a request for a connection: what the client does (src/protocol/client.rs) and what the
-- server does (src/protocol/server.rs).
use tws_rust.Prelude.{
  ℕ, List, [], ◌∷◌, ◌++◌, Bool, true, false, ◌||◌, some, ok, ◌≡◌, refl, ap, ap₂, ◌∙◌, if◌then◌else◌,
  if_true, arith,
}
use tws_rust.Prelude.Int.{ℤ}
use tws_rust.Prelude.Equality.{beq_refl}
use tws_rust.Text.Bytes.{Bytes, bytes_key, bytes_eq}
use tws_rust.Net.Addr.{SocketAddr}
use tws_rust.Map.{contains_key, insert}
use tws_rust.Map.Laws.{contains_key-insert}
use tws_rust.Util.RandStr.{rand_str}
use tws_rust.Protocol.Auth.{Crypto}
use tws_rust.Protocol.Connect.{connect_build}
use tws_rust.Protocol.State.{connect_state_build}
use tws_rust.Protocol.Packet.{Packet, connect, ConnectionState, ok_state, closed}
use tws_rust.Protocol.Dispatch.{parse_packet}
use tws_rust.Session.Message.{text}
use tws_rust.Session.Connection
use tws_rust.Session.Service.{feed_ws, insert_connection}
use tws_rust.Session.Writer.{queue-feed_ws}
use tws_rust.Session.Close.{contains_key-feed_ws}
use tws_rust.Server.State.{Server, on_connect, check_handshaked, unwrap}
use tws_rust.Server.Handlers.{on_connected, finish_connect, take_task}
use tws_rust.Server.Handlers as ServerHandlers
use tws_rust.Client.State.{Client, Pending, add_pending_connection}
use tws_rust.Client.Safety.{phase}

-- The answer of the server says whether it could connect.
abbrev pub answer : Bool → ConnectionState
answer success = if success then ok_state else closed

-- The client's part: the request stands last in the writer's queue, and the connection is pending.
pub requested :
    (c : Crypto) (now : ℕ) (draws : List ℕ) (id packet : Bytes) (s : Client)
    → rand_str draws ≡ some id
    → connect_build c s.option.passwd id ≡ ok packet
    → s.session.writer.finished ≡ false
    → (s' : Client) × (add_pending_connection c now draws s ≡ some s')
      × (s'.session.writer.queue ≡ s.session.writer.queue ++ text packet ∷ [])
      × (s'.option ≡ s.option)
      × ((j : Bytes)
          → phase j s' ≡ (
            contains_key j s.session.core.connections,
            bytes_eq id j || contains_key j s.pending_connections,
          ))
unfolding add_pending_connection
requested c now draws id packet s drawn built live =
    let pending : Pending = record { created = now; conn_id = id } in
    (
      record s {
        pending_connections = insert id pending s.pending_connections;
        session = feed_ws now (text packet) s.session;
      },
      rw (drawn, built) refl,
      queue-feed_ws now (text packet) s.session live,
      refl,
      (λ j.
          ap₂ (λ a p. (a, p)) (contains_key-feed_ws j now (text packet) s.session)
            (contains_key-insert id j pending s.pending_connections)),
    )

-- The server's part: it spawns a task that connects …
pub spawned :
    (c : Crypto) (time : ℤ) (now : ℕ) (bound : Bool) (id packet : Bytes) (addr : SocketAddr)
    (t : Server)
    → parse_packet c t.option.passwd time packet ≡ connect id
    → t.handshaked ≡ true
    → t.remote ≡ some addr
    → ServerHandlers.on_message c time now bound (text packet) t
      ≡ some (record t { connecting = id ∷ t.connecting })
unfolding ServerHandlers.on_message ServerHandlers.on_packet on_connect check_handshaked
spawned c time now bound id packet addr t parsed opened r =
    ap (λ (p : Packet). ServerHandlers.on_packet now bound p t) parsed
    ∙ if_true t.handshaked _ _ opened
    ∙ ap (λ o. unwrap o (some (record t { connecting = id ∷ t.connecting }))) r

-- … and in the end it answers, and has the connection if it could connect.
abbrev pub Answered : ℕ → Bytes → Bool → Server → Type 0
Answered now id success t =
    (t' : Server) × (on_connected now id success (record t { connecting = id ∷ t.connecting })
      ≡ some t')
    × (t'.session.writer.queue
        ≡ t.session.writer.queue ++ text (connect_state_build id (answer success)) ∷ [])
    × (contains_key id t'.session.core.connections
        ≡ success || contains_key id t.session.core.connections)

pub answered :
    (now : ℕ) (success : Bool) (id : Bytes) (addr client : SocketAddr) (t : Server)
    → t.remote ≡ some addr
    → t.client ≡ some client
    → t.session.writer.finished ≡ false
    → Answered now id success t
unfolding on_connected take_task insert_connection
answered now true id addr client t r cl live =
    let told = feed_ws now (text (connect_state_build id ok_state)) t.session in
    let task : take_task id (id ∷ t.connecting) ≡ some t.connecting = ground (arith, beq_refl id) in
    (
      record t {
        session = insert_connection id (Connection.create id now) told;
        connecting = t.connecting;
      },
      ap (λ o. finish_connect now id true o (record t { connecting = id ∷ t.connecting })) task
          ∙ rw (cl, r) refl,
      queue-feed_ws now _ t.session live,
      contains_key-insert id id (Connection.create id now) told.core.connections
          ∙ rw (beq_refl id) refl,
    )
answered now false id addr client t r cl live =
    let told = feed_ws now (text (connect_state_build id closed)) t.session in
    let task : take_task id (id ∷ t.connecting) ≡ some t.connecting = ground (arith, beq_refl id) in
    (
      record t { session = told; connecting = t.connecting },
      ap (λ o. finish_connect now id false o (record t { connecting = id ∷ t.connecting })) task,
      queue-feed_ws now _ t.session live,
      contains_key-feed_ws id now _ t.session,
    )
