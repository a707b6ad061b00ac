-- ===== src/Session/View.antt =====
-- What pausing and resuming connections leaves alone, the use of the WebSocket writer leaves alone
-- (src/protocol/shared.rs).
use tws_rust.Prelude.{
  ℕ, ◌+◌, ◌-◌, ◌%◌, ◌^◌, Bool, true, false, List, [], ◌∷◌, Option, none, some, ltb, ◌≡◌, refl, ◌∙◌,
  by_if,
}
use tws_rust.Text.Bytes.{Bytes}
use tws_rust.Text.Bytes.{bytes_key}
use tws_rust.Map.{Map, modify, insert}
use tws_rust.Util.SharedStream.Keeps.{Holds, feed-Holds}
use tws_rust.Session.Connection.{Connection}
use tws_rust.Session.Connection
use tws_rust.Session.Message.{OwnedMessage, get_size}
use tws_rust.Session.ReadThrottle.{
  Core, pause, resume, pause_loop, resume_marked, read_throttling, is_marked,
}
use tws_rust.Session.Service.{Session, core_or, feed_ws, feed_ws_all}

module _ {X : Type 0} (view : Map Bytes Connection → X)
    (pauses : (id : Bytes) (m : Map Bytes Connection)
      → view (modify id Connection.pause m) ≡ view m)
    (resumes : (id : Bytes) (m : Map Bytes Connection)
      → view (modify id Connection.resume m) ≡ view m) where
  abbrev Has : X → Core → Type 0
  Has x core = view core.connections ≡ x

  pause_loop-Has :
      (x : X) (max_speed sum : ℕ) (it : List (Bytes × ℕ)) (core : Core)
      → Has x core
      → Has x (pause_loop max_speed sum it core)
  unfolding pause_loop
  pause_loop-Has x max_speed sum [] core h = h
  pause_loop-Has x max_speed sum ((j, s) ∷ rest) core h =
      let sum' = (sum + 2 ^ 64 - s) % 2 ^ 64 in
      let core' : Core = record core {
        connections = modify j Connection.pause core.connections;
        pause_state = insert j true core.pause_state;
      } in
      let h' : Has x core' = pauses j core.connections ∙ h in
      by_if (Has x) (is_marked j core.pause_state)
        (by_if (Has x) (ltb sum' max_speed) h' (pause_loop-Has x max_speed sum' rest core' h'))
        (pause_loop-Has x max_speed sum rest core h)

  resume_marked_has :
      (x : X) (marks : Map Bytes Bool) (m : Map Bytes Connection)
      → view m ≡ x
      → view (resume_marked marks m) ≡ x
  unfolding resume_marked
  resume_marked_has x [] m h = h
  resume_marked_has x ((j, true) ∷ rest) m h =
      resume_marked_has x rest (modify j Connection.resume m) (resumes j m ∙ h)
  resume_marked_has x ((j, false) ∷ rest) m h = resume_marked_has x rest m h

  feed_ws-Has :
      (x : X) (now : ℕ) (msg : OwnedMessage) (s : Session)
      → Has x s.core
      → Has x (feed_ws now msg s).core
  unfolding feed_ws pause resume
  feed_ws-Has x now msg s h = kept _ (
      feed-Holds get_size (read_throttling now) (Has x)
        (λ max_speed core p. pause_loop-Has x max_speed _ _ _ p)
        (λ core p. resume_marked_has x core.pause_state core.connections p) now msg
        (record s.writer { handler = some s.core }) h)
    where
      kept : (o : Option Core) → Holds (Has x) o → Has x (core_or o s.core)
      kept none p = h
      kept (some core) p = p

  pub view-feed_ws :
      (now : ℕ) (msg : OwnedMessage) (s : Session)
      → view (feed_ws now msg s).core.connections ≡ view s.core.connections
  view-feed_ws now msg s = feed_ws-Has (view s.core.connections) now msg s refl

  pub view-feed_ws_all :
      (now : ℕ) (msgs : List OwnedMessage) (s : Session)
      → view (feed_ws_all now msgs s).core.connections ≡ view s.core.connections
  unfolding feed_ws_all
  view-feed_ws_all now [] s = refl
  view-feed_ws_all now (m ∷ msgs) s =
      view-feed_ws_all now msgs (feed_ws now m s) ∙ view-feed_ws now m s
