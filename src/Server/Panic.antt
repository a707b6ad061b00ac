-- ===== src/Server/Panic.antt =====
-- When a session of src/protocol/server.rs panics.
use tws_rust.Prelude.{
  ℕ, List, [], ◌∷◌, Bool, true, false, not, ◌||◌, Option, none, some, ◌≡◌, refl, sym, ap, ◌∙◌, inl,
  inr, by_if, by_test, if_true, if_false,
}
use tws_rust.Prelude.Int.{ℤ}
use tws_rust.Text.Bytes.{Bytes}
use tws_rust.Net.Addr.{SocketAddr}
use tws_rust.Util.SharedStream.Keeps.{Holds}
use tws_rust.Protocol.Auth.{Crypto}
use tws_rust.Protocol.Packet.{
  Packet, handshake, connect, udp_connect, connection_state, payload, udp_payload, unrecognized,
}
use tws_rust.Protocol.Dispatch.{parse_packet}
use tws_rust.Session.Message.{OwnedMessage, text, binary, ping, pong, close}
use tws_rust.Server.State.{
  ServerOption, Server, Outcome, new, unwrap, allows, check_handshaked, on_unknown, on_handshake,
  on_connect, on_udp_connect, on_connect_state, on_data, on_udp_data,
}
use tws_rust.Server.Handlers.{on_packet, on_message, on_connected, finish_connect, take_task}
use tws_rust.Server.Run.{
  Event, messages, connected, remote_data, remote_udp_data, remote_close, remote_udp_close, writes,
  ends, step, run, and_then, target, event_target, message_target, forbids,
}
use tws_rust.Server.Gate.{IsSound, IsOpen}
use tws_rust.Server.Reach.{step-Holds, new-IsSound, no_task}

abbrev pub panics : Outcome → Bool
panics none = true
panics (some s) = false

unwrap_lem :
    {A : Type 0} (o : Option A) (a : A) (k : Outcome) (b : Bool)
    → o ≡ some a
    → panics k ≡ b
    → panics (unwrap o k) ≡ b
unwrap_lem {A = A} o a k b e p = ap (λ (o' : Option A). panics (unwrap o' k)) e ∙ p

module _ (option : ServerOption) (client : SocketAddr) where
  check_handshaked-Runs :
      (s : Server) (k : Outcome)
      → IsSound option client s
      → (IsOpen option s → panics k ≡ false)
      → panics (check_handshaked s k) ≡ false
  unfolding check_handshaked
  check_handshaked-Runs s k (opt, cl, inr o) next =
      ap panics (if_true s.handshaked k _ o.0) ∙ next o
  check_handshaked-Runs s k (opt, cl, inl w) next =
      ap panics (if_false s.handshaked k _ w.0) ∙ unwrap_lem s.client client _ false cl refl

  panics-on_packet :
      (now : ℕ) (bound : Bool) (p : Packet) (s : Server)
      → IsSound option client s
      → panics (on_packet now bound p s) ≡ forbids option.accept_remotes (target p)
  unfolding on_packet on_unknown on_handshake on_connect on_udp_connect on_connect_state on_data
      on_udp_data
  panics-on_packet now bound (handshake addr) s (opt, cl, phase) =
      unwrap_lem s.client client _ (not (allows option.accept_remotes addr)) cl (
        by_test (λ (o : Outcome). panics o ≡ not (allows option.accept_remotes addr))
          (not (allows s.option.accept_remotes addr))
          (λ bad. sym bad ∙ ap (λ (o : ServerOption). not (allows o.accept_remotes addr)) opt)
          (λ good. sym good ∙ ap (λ (o : ServerOption). not (allows o.accept_remotes addr)) opt))
  panics-on_packet now bound (connect conn_id) s h =
      check_handshaked-Runs s _ h (λ (x, (addr, r, a)). unwrap_lem s.remote addr _ false r refl)
  panics-on_packet now bound (udp_connect conn_id) s h =
      check_handshaked-Runs s _ h (λ (x, (addr, r, a)).
        by_if (λ (o : Outcome). panics o ≡ false) s.option.no_udp refl
          (unwrap_lem s.remote addr _ false r (
            by_if (λ (o : Outcome). panics o ≡ false) bound
              (unwrap_lem s.client client _ false h.1 refl) refl)))
  panics-on_packet now bound (connection_state conn_id state) s h =
      check_handshaked-Runs s _ h (λ o. refl)
  panics-on_packet now bound (payload conn_id bytes) s h = check_handshaked-Runs s _ h (λ o. refl)
  panics-on_packet now bound (udp_payload conn_id bytes) s h =
      check_handshaked-Runs s _ h (λ o. refl)
  panics-on_packet now bound unrecognized s h = check_handshaked-Runs s _ h (λ o. refl)

  panics-on_message :
      (c : Crypto) (time : ℤ) (now : ℕ) (bound : Bool) (msg : OwnedMessage) (s : Server)
      → IsSound option client s
      → panics (on_message c time now bound msg s)
        ≡ forbids option.accept_remotes (message_target c option.passwd time msg)
  unfolding on_message
  panics-on_message c time now bound (text bytes) s h =
      panics-on_packet now bound (parse_packet c s.option.passwd time bytes) s h
      ∙ ap
          (λ (o : ServerOption).
            forbids option.accept_remotes (target (parse_packet c o.passwd time bytes)))
          h.0
  panics-on_message c time now bound (binary bytes) s h =
      panics-on_packet now bound (parse_packet c s.option.passwd time bytes) s h
      ∙ ap
          (λ (o : ServerOption).
            forbids option.accept_remotes (target (parse_packet c o.passwd time bytes)))
          h.0
  panics-on_message c time now bound (ping bytes) s h = refl
  panics-on_message c time now bound (pong bytes) s h = refl
  panics-on_message c time now bound close s h = refl

  panics-finish_connect :
      (now : ℕ) (conn_id : Bytes) (success : Bool) (t : Option (List Bytes)) (s : Server)
      → s.client ≡ some client
      → IsOpen option s
      → panics (finish_connect now conn_id success t s) ≡ false
  panics-finish_connect now conn_id success none s cl o = refl
  panics-finish_connect now conn_id true (some rest) s cl (h, (addr, r, a)) =
      unwrap_lem s.client client _ false cl (unwrap_lem s.remote addr _ false r refl)
  panics-finish_connect now conn_id false (some rest) s cl o = refl

  panics-step :
      (c : Crypto) (ev : Event) (s : Server)
      → IsSound option client s
      → panics (step c ev s) ≡ forbids option.accept_remotes (event_target c option.passwd ev)
  unfolding step on_connected
  panics-step c (messages time now bound msg) s h = panics-on_message c time now bound msg s h
  panics-step c (connected now conn_id success) s (opt, cl, inr o) =
      panics-finish_connect now conn_id success (take_task conn_id s.connecting) s cl o
  panics-step c (connected now conn_id success) s (opt, cl, inl (h, r, e, q)) =
      ap (λ (t : Option (List Bytes)). panics (finish_connect now conn_id success t s))
        (no_task option client conn_id s.connecting e)
  panics-step c (remote_data now conn_id bytes) s h = refl
  panics-step c (remote_udp_data now conn_id bytes) s h = refl
  panics-step c (remote_close now conn_id) s h = refl
  panics-step c (remote_udp_close conn_id) s h = refl
  panics-step c (writes now current) s h = refl
  panics-step c ends s h = refl

  -- Some event is a handshake to a remote that is not allowed.
  abbrev pub forbidden : Crypto → List Event → Bool
  forbidden c [] = false
  forbidden c (ev ∷ evs) =
      forbids option.accept_remotes (event_target c option.passwd ev) || forbidden c evs

  panics-and_then :
      (o : Outcome) (next : Server → Outcome) (first later : Bool)
      → panics o ≡ first
      → Holds (IsSound option client) o
      → ((s : Server) → IsSound option client s → panics (next s) ≡ later)
      → panics (and_then o next) ≡ first || later
  panics-and_then none next first later e h k = ap (λ b. b || later) e
  panics-and_then (some s) next first later e h k = k s h ∙ ap (λ b. b || later) e

  panics-run_from :
      (c : Crypto) (evs : List Event) (s : Server)
      → IsSound option client s
      → panics (run c evs s) ≡ forbidden c evs
  unfolding run
  panics-run_from c [] s h = refl
  panics-run_from c (ev ∷ evs) s h =
      panics-and_then (step c ev s) (run c evs) _ (forbidden c evs) (panics-step c ev s h)
        (step-Holds option client c ev s h) (panics-run_from c evs)

-- A session panics exactly if among its messages there is an authenticated handshake to a remote that the
-- options do not allow.
pub panics-run :
    (c : Crypto) (now : ℕ) (option : ServerOption) (client : SocketAddr) (evs : List Event)
    → panics (run c evs (new now option client)) ≡ forbidden option client c evs
panics-run c now option client evs =
    panics-run_from option client c evs (new now option client) (new-IsSound now option client)
