-- ===== src/Server/Reach.antt =====
-- The states that a session of src/protocol/server.rs can reach, whatever happens in whatever order.
use tws_rust.Prelude.{
  ℕ, List, [], ◌∷◌, Bool, true, false, Option, none, some, ◌≡◌, refl, sym, ap, ◌∙◌, inl, inr, arith,
  by_test, subst,
}
use tws_rust.Prelude.Int.{ℤ}
use tws_rust.Text.Bytes.{Bytes}
use tws_rust.Net.Addr.{SocketAddr}
use tws_rust.Text.Bytes.{bytes_key}
use tws_rust.Map.{contains_key, remove}
use tws_rust.Util.SharedStream.Keeps.{Holds}
use tws_rust.Protocol.Auth.{Crypto}
use tws_rust.Session.Message.{OwnedMessage, text, binary, ping, pong, close}
use tws_rust.Session.Quiet.{
  IsQuiet, feed_ws-IsQuiet, poll_ws-IsQuiet, forward_tcp-IsQuiet, forward_udp-IsQuiet,
}
use tws_rust.Session.Service.{Session, close_ws, feed_ws, close_conn, drop_connections}
use tws_rust.Server.State.{ServerOption, Server, Outcome, new, with_session}
use tws_rust.Server.Handlers.{
  on_message, on_connected, finish_connect, take_task, on_remote_data, on_remote_close,
  on_remote_udp_data, on_remote_udp_close, on_session_end,
}
use tws_rust.Server.Run.{
  Event, messages, connected, remote_data, remote_udp_data, remote_close, remote_udp_close, writes,
  ends, step, run, and_then,
}
use tws_rust.Session.Service.{with_udp, poll_ws, forward_tcp, forward_udp}
use tws_rust.Server.Gate.{IsSound, IsOpen, unwrap-Holds, on_packet-Holds}

module _ (option : ServerOption) (client : SocketAddr) where
  -- A step of the session's own part that opens no connection.
  with_session-Sound :
      (session : Session) (s : Server)
      → IsSound option client s
      → (IsQuiet s.session.core → IsQuiet session.core)
      → IsSound option client (with_session session s)
  with_session-Sound session s (opt, cl, inl (h, r, c, q)) quiet = (opt, cl, inl (h, r, c, quiet q))
  with_session-Sound session s (opt, cl, inr o) quiet = (opt, cl, inr o)

  fed-Sound :
      (now : ℕ) (msg : OwnedMessage) (s : Server)
      → IsSound option client s
      → IsSound option client (with_session (feed_ws now msg s.session) s)
  fed-Sound now msg s h =
      with_session-Sound (feed_ws now msg s.session) s h (feed_ws-IsQuiet now msg s.session)

  on_message-Holds :
      (c : Crypto) (time : ℤ) (now : ℕ) (bound : Bool) (msg : OwnedMessage) (s : Server)
      → IsSound option client s
      → Holds (IsSound option client) (on_message c time now bound msg s)
  unfolding on_message close_ws
  on_message-Holds c time now bound (text bytes) s h = on_packet-Holds option client now bound _ s h
  on_message-Holds c time now bound (binary bytes) s h =
      on_packet-Holds option client now bound _ s h
  on_message-Holds c time now bound (ping bytes) s h = fed-Sound now (pong bytes) s h
  on_message-Holds c time now bound (pong bytes) s h =
      with_session-Sound (record s.session { received = true }) s h (λ q. q)
  on_message-Holds c time now bound close s h = with_session-Sound (close_ws s.session) s h (λ q. q)

  pub no_task : (conn_id : Bytes) (l : List Bytes) → l ≡ [] → take_task conn_id l ≡ none
  unfolding take_task
  no_task conn_id l e = ap (take_task conn_id) e

  finish_connect-Holds :
      (now : ℕ) (conn_id : Bytes) (success : Bool) (t : Option (List Bytes)) (s : Server)
      → IsSound option client s
      → IsOpen option s
      → Holds (IsSound option client) (finish_connect now conn_id success t s)
  finish_connect-Holds now conn_id success none s h o = h
  finish_connect-Holds now conn_id true (some rest) s h o =
      unwrap-Holds (IsSound option client) s.client _
        (unwrap-Holds (IsSound option client) s.remote _ (h.0, h.1, inr o))
  finish_connect-Holds now conn_id false (some rest) s h o = (h.0, h.1, inr o)

  on_connected-Holds :
      (now : ℕ) (conn_id : Bytes) (success : Bool) (s : Server)
      → IsSound option client s
      → Holds (IsSound option client) (on_connected now conn_id success s)
  unfolding on_connected
  on_connected-Holds now conn_id success s (opt, cl, inr o) =
      finish_connect-Holds now conn_id success (take_task conn_id s.connecting) s (opt, cl, inr o) o
  on_connected-Holds now conn_id success s (opt, cl, inl (h, r, c, q)) =
      subst
        (λ (t : Option (List Bytes)).
          Holds (IsSound option client) (finish_connect now conn_id success t s))
        (sym (no_task conn_id s.connecting c)) (opt, cl, inl (h, r, c, q))

  pub close_conn-IsQuiet :
      (now : ℕ) (conn_id : Bytes) (s : Session)
      → IsQuiet s.core
      → IsQuiet (close_conn now conn_id s).core
  unfolding close_conn contains_key
  close_conn-IsQuiet now conn_id s (e, q) =
      by_test (λ (t : Session). IsQuiet t.core) (contains_key conn_id s.core.connections)
        (λ found.
          let clash : true ≡ false = sym found ∙ ap (contains_key conn_id) e in
          absurd (ground arith))
        (λ missing. (e, q))

  pub step-Holds :
      (c : Crypto) (ev : Event) (s : Server)
      → IsSound option client s
      → Holds (IsSound option client) (step c ev s)
  unfolding step on_remote_data on_remote_udp_data on_remote_close on_remote_udp_close
      on_session_end remove drop_connections
  step-Holds c (messages time now bound msg) s h = on_message-Holds c time now bound msg s h
  step-Holds c (connected now conn_id success) s h = on_connected-Holds now conn_id success s h
  step-Holds c (remote_data now conn_id bytes) s h =
      with_session-Sound (forward_tcp now conn_id bytes s.session) s h
        (forward_tcp-IsQuiet now conn_id bytes s.session)
  step-Holds c (remote_udp_data now conn_id bytes) s h =
      with_session-Sound (forward_udp now conn_id bytes s.session) s h
        (forward_udp-IsQuiet now conn_id bytes s.session)
  step-Holds c (remote_close now conn_id) s h =
      with_session-Sound (close_conn now conn_id s.session) s h
        (close_conn-IsQuiet now conn_id s.session)
  step-Holds c (remote_udp_close conn_id) s h =
      with_session-Sound (with_udp (remove conn_id s.session.core.udp_connections) s.session) s h
        (λ q. (q.0, ap (remove conn_id) q.1))
  step-Holds c (writes now current) s h =
      with_session-Sound (poll_ws now current s.session).1 s h
        (poll_ws-IsQuiet now current s.session)
  step-Holds c ends s h = with_session-Sound (drop_connections s.session) s h (λ q. (refl, q.1))

  next-Holds :
      (o : Outcome) (next : Server → Outcome)
      → Holds (IsSound option client) o
      → ((s : Server) → IsSound option client s → Holds (IsSound option client) (next s))
      → Holds (IsSound option client) (and_then o next)
  next-Holds none next p k = tt
  next-Holds (some s) next p k = k s p

  run-Holds :
      (c : Crypto) (evs : List Event) (s : Server)
      → IsSound option client s
      → Holds (IsSound option client) (run c evs s)
  unfolding run
  run-Holds c [] s h = h
  run-Holds c (ev ∷ evs) s h =
      next-Holds (step c ev s) (run c evs) (step-Holds c ev s h) (run-Holds c evs)

pub new-IsSound :
    (now : ℕ) (option : ServerOption) (client : SocketAddr)
    → IsSound option client (new now option client)
unfolding new
new-IsSound now option client = (refl, refl, inl (refl, refl, refl, (refl, refl)))

-- Whatever happens, in whatever order: as long as a session has not panicked, either it has had no
-- handshake, and then it has no remote, no TCP or UDP connection and none on its way; or its remote is one
-- that the options allow.
pub run-IsSound :
    (c : Crypto) (now : ℕ) (option : ServerOption) (client : SocketAddr) (evs : List Event)
    (s : Server)
    → run c evs (new now option client) ≡ some s
    → IsSound option client s
run-IsSound c now option client evs s e =
    subst (Holds (IsSound option client)) e
      (run-Holds option client c evs (new now option client) (new-IsSound now option client))
