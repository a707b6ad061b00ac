-- ===== src/Session/UdpTable.antt =====
-- The WebSocket writer leaves the table of UDP connections alone (src/protocol/shared.rs).
use tws_rust.Prelude.{
  ℕ, ◌+◌, ◌-◌, ◌%◌, ◌^◌, true, List, [], ◌∷◌, Option, none, some, ltb, ◌≡◌, refl, by_if,
}
use tws_rust.Text.Bytes.{Bytes, bytes_key}
use tws_rust.Map.{Map, modify, insert}
use tws_rust.Util.SharedStream.Keeps.{Holds, feed-Holds}
use tws_rust.Session.Connection
use tws_rust.Session.Message.{OwnedMessage, get_size}
use tws_rust.Session.ReadThrottle.{
  Core, UdpConnection, pause, resume, pause_loop, read_throttling, is_marked,
}
use tws_rust.Session.Service.{Session, core_or, feed_ws}

abbrev Visited : Map Bytes UdpConnection → Core → Type 0
Visited m core = core.udp_connections ≡ m

pause_loop-Visited :
    (m : Map Bytes UdpConnection) (max_speed sum : ℕ) (it : List (Bytes × ℕ)) (core : Core)
    → Visited m core
    → Visited m (pause_loop max_speed sum it core)
unfolding pause_loop
pause_loop-Visited m max_speed sum [] core h = h
pause_loop-Visited m max_speed sum ((j, s) ∷ rest) core h =
    let sum' = (sum + 2 ^ 64 - s) % 2 ^ 64 in
    let core' : Core = record core {
      connections = modify j Connection.pause core.connections;
      pause_state = insert j true core.pause_state;
    } in
    by_if (Visited m) (is_marked j core.pause_state)
      (by_if (Visited m) (ltb sum' max_speed) h (pause_loop-Visited m max_speed sum' rest core' h))
      (pause_loop-Visited m max_speed sum rest core h)

pub udp_connections-feed_ws :
    (now : ℕ) (msg : OwnedMessage) (s : Session)
    → (feed_ws now msg s).core.udp_connections ≡ s.core.udp_connections
unfolding feed_ws pause resume
udp_connections-feed_ws now msg s = kept _ (
    feed-Holds get_size (read_throttling now) (Visited s.core.udp_connections)
      (λ max_speed core p. pause_loop-Visited s.core.udp_connections max_speed _ _ _ p)
      (λ core p. p) now msg (record s.writer { handler = some s.core }) refl)
  where
    kept :
        (o : Option Core)
        → Holds (Visited s.core.udp_connections) o
        → Visited s.core.udp_connections (core_or o s.core)
    kept none p = refl
    kept (some core) p = p
