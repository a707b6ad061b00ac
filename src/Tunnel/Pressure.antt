-- ===== src/Tunnel/Pressure.antt =====
-- Flow control through the tunnel: a writer of the server that is full stops the client's reading
-- (src/protocol/shared.rs, src/protocol/util.rs).
use tws_rust.Prelude.{
  ℕ, ◌≤◌, [], ◌∷◌, ◌++◌, Bool, true, false, leb, ltb, some, length, length-append, ◌≡◌, ◌≢◌, refl,
  ap, ◌∙◌, if_true, if_false, arith,
}
use tws_rust.Prelude.Int.{ℤ}
use tws_rust.Prelude.Equality.{beq_refl}
use tws_rust.Text.Bytes.{Bytes, bytes_key}
use tws_rust.Map.{get, modify}
use tws_rust.Map.Laws.{get-modify}
use tws_rust.Util.Speedometer.{speed}
use tws_rust.Util.Throttling
use tws_rust.Util.SharedStream.{SharedState, pushed, press, feed, queue_max_length}
use tws_rust.Protocol.Auth.{Crypto}
use tws_rust.Protocol.ConnId.{IsConnId}
use tws_rust.Protocol.Data.{data_build}
use tws_rust.Protocol.State.{connect_state_build}
use tws_rust.Protocol.Packet.{Packet, pause, is_closed, is_ok_state, is_pause}
use tws_rust.Protocol.Exchange.{parse_packet-data_build, parse_packet-connect_state_build}
use tws_rust.Session.Message.{text, binary}
use tws_rust.Session.WriteThrottle.{WriteThrottle, pause_remote}
use tws_rust.Session.Connection.{Connection}
use tws_rust.Session.Connection
use tws_rust.Session.Service.{
  Session, feed_tcp, feed_ws_all, deliver, fed_writer, rewritten, outbox_of, with_connections,
  on_pause_resume,
}
use tws_rust.Server.State.{Server, check_handshaked, on_data}
use tws_rust.Server.State as ServerState
use tws_rust.Server.Handlers as ServerHandlers
use tws_rust.Client.State.{Client, with_session, on_connect_state}
use tws_rust.Client.Handlers as ClientHandlers
use tws_rust.Session.Writer.{queue-feed_ws}

-- The bytes that make a writer's queue long pause its sources.
handler-fed_writer :
    (now : ℕ) (bytes : Bytes) (c : Connection) (h : WriteThrottle)
    → c.writer.finished ≡ false
    → c.writer.handler ≡ some h
    → h.paused ≡ false
    → 3 ≤ length c.writer.queue
    → (fed_writer now bytes c).handler ≡ some (pause_remote (speed now c.writer.speedometer) h)
unfolding fed_writer feed press
handler-fed_writer now bytes c h live e free long =
    let w = pushed bytes c.writer in
    let full : leb queue_max_length (length w.queue) ≡ true =
      ground (arith, length-append c.writer.queue (bytes ∷ [])) in
    ap (λ (x : SharedState Bytes WriteThrottle). x.handler) (if_false c.writer.finished _ _ live)
    ∙ ap (λ (x : SharedState Bytes WriteThrottle). x.handler)
        (if_true (leb queue_max_length (length w.queue)) _ _ full)
    ∙ rw (e, free) refl

pressed :
    (now : ℕ) (id bytes : Bytes) (t : Session) (far : Connection) (h : WriteThrottle)
    → t.writer.finished ≡ false
    → get id t.core.connections ≡ some far
    → far.writer.finished ≡ false
    → far.writer.handler ≡ some h
    → h.paused ≡ false
    → h.conn_id ≡ id
    → h.outbox ≡ []
    → 3 ≤ length far.writer.queue
    → (feed_tcp now id bytes t).writer.queue
      ≡ t.writer.queue ++ text (connect_state_build id pause) ∷ []
unfolding feed_tcp deliver feed_ws_all pause_remote
pressed now id bytes t far h live e open_writer handler free own empty long =
    let w = fed_writer now bytes far in
    let t' = with_connections (modify id (rewritten w) t.core.connections) t in
    let fed : outbox_of w.handler ≡ text (connect_state_build id pause) ∷ [] =
      ap outbox_of (handler-fed_writer now bytes far h open_writer handler free long)
      ∙ rw (empty, own) refl in
    ap (λ o. (deliver now id bytes o t).writer.queue) e
    ∙ ap (λ msgs. (feed_ws_all now msgs t').writer.queue) fed
    ∙ queue-feed_ws now (text (connect_state_build id pause)) t' live

paused :
    (c : Connection)
    → c.read_throttler.paused ≡ ltb 0 c.read_pause_counter
    → (Connection.pause c).read_throttler.paused ≡ true
unfolding Connection.pause Throttling.pause
paused c h = ground arith

-- Flow control from end to end, for a connection that both sides have and that is not paused: when the client's
-- data make three or more waiting items four or more at the server, the last message that the server queues tells
-- the client to pause, and when the client gets this message, it stops reading from its own side of the connection.
pub on_message-pressed :
    (c : Crypto) (time : ℤ) (now now' : ℕ) (bound : Bool) (id bytes : Bytes) (s : Client)
    (t : Server) (near far : Connection) (h : WriteThrottle)
    → IsConnId id
    → bytes ≢ []
    → t.handshaked ≡ true
    → t.session.writer.finished ≡ false
    → get id t.session.core.connections ≡ some far
    → far.writer.finished ≡ false
    → far.writer.handler ≡ some h
    → h.paused ≡ false
    → h.conn_id ≡ id
    → h.outbox ≡ []
    → 3 ≤ length far.writer.queue
    → get id s.session.core.connections ≡ some near
    → near.read_throttler.paused ≡ ltb 0 near.read_pause_counter
    → (t' : Server) × (s' : Client) × (near' : Connection) × (ServerHandlers.on_message c time now'
          bound
          (binary (data_build id bytes))
          t
        ≡ some t')
      × (t'.session.writer.queue
          ≡ t.session.writer.queue ++ text (connect_state_build id pause) ∷ [])
      × (ClientHandlers.on_message c time now (text (connect_state_build id pause)) s ≡ some s')
      × (get id s'.session.core.connections ≡ some near')
      × (near'.read_throttler.paused ≡ true)
unfolding ServerHandlers.on_message ServerHandlers.on_packet on_data check_handshaked
    ClientHandlers.on_message ClientHandlers.on_packet on_connect_state is_closed is_ok_state
    is_pause on_pause_resume
on_message-pressed c time now now' bound id bytes s t near far h valid some_bytes opened live e
      open_writer handler free own empty long e' level =
    let t' = ServerState.with_session (feed_tcp now' id bytes t.session) t in
    let s' =
      with_session
        (with_connections (modify id Connection.pause s.session.core.connections) s.session) s in
    (
      t',
      s',
      Connection.pause near,
      ap (λ (p : Packet). ServerHandlers.on_packet now' bound p t)
            (parse_packet-data_build c t.option.passwd time id bytes valid some_bytes)
          ∙ if_true t.handshaked (some t') _ opened,
      pressed now' id bytes t.session far h live e open_writer handler free own empty long,
      ap (λ (p : Packet). ClientHandlers.on_packet now p s)
          (parse_packet-connect_state_build c s.option.passwd time id pause valid),
      get-modify id id Connection.pause s.session.core.connections ∙ rw (beq_refl id, e') refl,
      paused near level,
    )
