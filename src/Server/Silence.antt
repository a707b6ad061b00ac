-- ===== src/Server/Silence.antt =====
-- What a session of src/protocol/server.rs does while there is no handshake.
use tws_rust.Prelude.{
  ◌||◌, arith, ℕ, List, [], ◌∷◌, Bool, true, false, Option, none, some, ◌≡◌, refl, ap, ◌∙◌,
  if_false, All,
}
use tws_rust.Prelude.Int.{ℤ}
use tws_rust.Text.Bytes.{Bytes}
use tws_rust.Net.Addr.{SocketAddr}
use tws_rust.Text.Bytes.{bytes_key}
use tws_rust.Map.{remove}
use tws_rust.Protocol.Auth.{Crypto}
use tws_rust.Protocol.Packet.{
  Packet, handshake, connect, udp_connect, connection_state, payload, udp_payload, unrecognized,
}
use tws_rust.Protocol.Dispatch.{parse_packet}
use tws_rust.Session.Message.{OwnedMessage, text, binary, ping, pong, close}
use tws_rust.Session.Quiet.{
  feed_ws-IsQuiet, poll_ws-IsQuiet, forward_tcp-IsQuiet, forward_udp-IsQuiet,
}
use tws_rust.Util.SharedStream
use tws_rust.Session.Writer.{
  finished-feed_ws, finished-poll_ws, finished-close_ws, finished-close_conn, finished-forward_tcp,
  finished-forward_udp,
}
use tws_rust.Session.Service.{close_ws, feed_ws, drop_connections, poll_ws}
use tws_rust.Server.State.{
  ServerOption, Server, Outcome, new, with_session, unwrap, check_handshaked, on_unknown,
  on_connect, on_udp_connect, on_connect_state, on_data, on_udp_data,
}
use tws_rust.Server.Handlers.{
  on_packet, on_message, on_connected, finish_connect, on_remote_data, on_remote_close,
  on_remote_udp_data, on_remote_udp_close, on_session_end,
}
use tws_rust.Server.Run.{
  Event, messages, connected, remote_data, remote_udp_data, remote_close, remote_udp_close, writes,
  ends, step, run, and_then, target, event_target, message_target,
}
use tws_rust.Server.Gate.{IsWaiting}
use tws_rust.Server.Reach.{no_task, close_conn-IsQuiet}

check_handshaked-closes :
    (s : Server) (client : SocketAddr) (k : Outcome)
    → s.handshaked ≡ false
    → s.client ≡ some client
    → check_handshaked s k ≡ some (with_session (close_ws s.session) s)
unfolding check_handshaked
check_handshaked-closes s client k h cl =
    if_false s.handshaked k _ h
    ∙ ap (λ (o : Option SocketAddr). unwrap o (some (with_session (close_ws s.session) s))) cl

-- Before the handshake, whatever packet comes that is not one closes the WebSocket writer, and does
-- nothing else: nothing is sent, connected or forwarded.
pub on_packet_waiting :
    (now : ℕ) (bound : Bool) (p : Packet) (s : Server) (client : SocketAddr)
    → s.handshaked ≡ false
    → s.client ≡ some client
    → target p ≡ none
    → on_packet now bound p s ≡ some (with_session (close_ws s.session) s)
unfolding on_packet on_unknown on_connect on_udp_connect on_connect_state on_data on_udp_data
on_packet_waiting now bound (handshake addr) s client h cl t = absurd (ground arith)
on_packet_waiting now bound (connect conn_id) s client h cl t =
    check_handshaked-closes s client _ h cl
on_packet_waiting now bound (udp_connect conn_id) s client h cl t =
    check_handshaked-closes s client _ h cl
on_packet_waiting now bound (connection_state conn_id state) s client h cl t =
    check_handshaked-closes s client _ h cl
on_packet_waiting now bound (payload conn_id bytes) s client h cl t =
    check_handshaked-closes s client _ h cl
on_packet_waiting now bound (udp_payload conn_id bytes) s client h cl t =
    check_handshaked-closes s client _ h cl
on_packet_waiting now bound unrecognized s client h cl t = check_handshaked-closes s client _ h cl

-- Before the handshake, any message that is not a ping or a pong closes the writer.
abbrev pub shuts_message : OwnedMessage → Bool
shuts_message (text bytes) = true
shuts_message (binary bytes) = true
shuts_message (ping bytes) = false
shuts_message (pong bytes) = false
shuts_message close = true

abbrev pub shuts : Event → Bool
shuts (messages time now bound msg) = shuts_message msg
shuts (connected now conn_id success) = false
shuts (remote_data now conn_id bytes) = false
shuts (remote_udp_data now conn_id bytes) = false
shuts (remote_close now conn_id) = false
shuts (remote_udp_close conn_id) = false
shuts (writes now current) = false
shuts ends = false

abbrev pub any_shuts : List Event → Bool
any_shuts [] = false
any_shuts (ev ∷ evs) = shuts ev || any_shuts evs

module _ (option : ServerOption) (client : SocketAddr) where
  abbrev IsSilent : Server → Type 0
  IsSilent s = (s.option ≡ option) × (s.client ≡ some client) × IsWaiting s

  abbrev Stays : Bool → Outcome → Type 0
  Stays over o = (t : Server) × (o ≡ some t) × IsSilent t × (t.session.writer.finished ≡ over)

  on_message-Stays :
      (c : Crypto) (time : ℤ) (now : ℕ) (bound : Bool) (msg : OwnedMessage) (s : Server)
      → IsSilent s
      → message_target c option.passwd time msg ≡ none
      → Stays (shuts_message msg || s.session.writer.finished) (on_message c time now bound msg s)
  unfolding on_message close_ws
  on_message-Stays c time now bound (text bytes) s (opt, cl, w) t = (
    with_session (close_ws s.session) s,
    on_packet_waiting now bound (parse_packet c s.option.passwd time bytes) s client w.0 cl
        (ap (λ (o : ServerOption). target (parse_packet c o.passwd time bytes)) opt ∙ t),
    (opt, cl, w),
    finished-close_ws s.session,
  )
  on_message-Stays c time now bound (binary bytes) s (opt, cl, w) t = (
    with_session (close_ws s.session) s,
    on_packet_waiting now bound (parse_packet c s.option.passwd time bytes) s client w.0 cl
        (ap (λ (o : ServerOption). target (parse_packet c o.passwd time bytes)) opt ∙ t),
    (opt, cl, w),
    finished-close_ws s.session,
  )
  on_message-Stays c time now bound (ping bytes) s (opt, cl, (h, r, e, q)) t = (
    with_session (feed_ws now (pong bytes) s.session) s,
    refl,
    (opt, cl, (h, r, e, feed_ws-IsQuiet now (pong bytes) s.session q)),
    finished-feed_ws now (pong bytes) s.session,
  )
  on_message-Stays c time now bound (pong bytes) s (opt, cl, w) t =
      (with_session (record s.session { received = true }) s, refl, (opt, cl, w), refl)
  on_message-Stays c time now bound close s (opt, cl, w) t =
      (with_session (close_ws s.session) s, refl, (opt, cl, w), finished-close_ws s.session)

  step-Stays :
      (c : Crypto) (ev : Event) (s : Server)
      → IsSilent s
      → event_target c option.passwd ev ≡ none
      → Stays (shuts ev || s.session.writer.finished) (step c ev s)
  unfolding step on_connected on_remote_data on_remote_udp_data on_remote_close on_remote_udp_close
      on_session_end remove drop_connections
  step-Stays c (messages time now bound msg) s h t = on_message-Stays c time now bound msg s h t
  step-Stays c (connected now conn_id success) s (opt, cl, (h, r, e, q)) t = (
    s,
    ap (λ (l : Option (List Bytes)). finish_connect now conn_id success l s)
        (no_task option client conn_id s.connecting e),
    (opt, cl, (h, r, e, q)),
    refl,
  )
  step-Stays c (remote_data now conn_id bytes) s (opt, cl, (h, r, e, q)) t = (
    on_remote_data now conn_id bytes s,
    refl,
    (opt, cl, (h, r, e, forward_tcp-IsQuiet now conn_id bytes s.session q)),
    finished-forward_tcp now conn_id bytes s.session,
  )
  step-Stays c (remote_udp_data now conn_id bytes) s (opt, cl, (h, r, e, q)) t = (
    on_remote_udp_data now conn_id bytes s,
    refl,
    (opt, cl, (h, r, e, forward_udp-IsQuiet now conn_id bytes s.session q)),
    finished-forward_udp now conn_id bytes s.session,
  )
  step-Stays c (remote_close now conn_id) s (opt, cl, (h, r, e, q)) t = (
    on_remote_close now conn_id s,
    refl,
    (opt, cl, (h, r, e, close_conn-IsQuiet option client now conn_id s.session q)),
    finished-close_conn now conn_id s.session,
  )
  step-Stays c (remote_udp_close conn_id) s (opt, cl, (h, r, e, q)) t = (
    on_remote_udp_close conn_id s,
    refl,
    (opt, cl, (h, r, e, (q.0, ap (remove conn_id) q.1))),
    refl,
  )
  step-Stays c (writes now current) s (opt, cl, (h, r, e, q)) t = (
    with_session (poll_ws now current s.session).1 s,
    refl,
    (opt, cl, (h, r, e, poll_ws-IsQuiet now current s.session q)),
    finished-poll_ws now current s.session,
  )
  step-Stays c ends s (opt, cl, (h, r, e, q)) t =
      (on_session_end s, refl, (opt, cl, (h, r, e, (refl, q.1))), refl)

  run-Stays :
      (c : Crypto) (evs : List Event) (s : Server)
      → IsSilent s
      → All (λ ev. event_target c option.passwd ev ≡ none) evs
      → Stays (any_shuts evs || s.session.writer.finished) (run c evs s)
  unfolding run
  run-Stays c [] s h all = (s, refl, h, refl)
  run-Stays c (ev ∷ evs) s h (t, all) =
      let (s', e, h', over) = step-Stays c ev s h t in
      let (last, e', h'', over') = run-Stays c evs s' h' all in
      (last, ap (λ (o : Outcome). and_then o (run c evs)) e ∙ e', h'', over' ∙ ground (arith, over))

-- As long as no message is an authenticated handshake, a session does not panic and does nothing for the client,
-- whatever else comes in whatever order: it has no remote, no connection, and none on its way. Its writer is closed
-- exactly if a message has come that is not a ping or a pong.
pub run_without_handshake :
    (c : Crypto) (now : ℕ) (option : ServerOption) (client : SocketAddr) (evs : List Event)
    → All (λ ev. event_target c option.passwd ev ≡ none) evs
    → (s : Server) × (run c evs (new now option client) ≡ some s)
      × IsWaiting s
      × (s.session.writer.finished ≡ any_shuts evs)
unfolding new SharedStream.new SharedStream.run SharedStream.clone
run_without_handshake c now option client evs all =
    let (s, e, h, over) =
      run-Stays option client c evs (new now option client)
        (refl, refl, (refl, refl, refl, (refl, refl))) all in
    (s, e, h.2, over ∙ ground arith)
