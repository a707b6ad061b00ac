-- ===== src/Session/Quiet.antt =====
-- A session that has no connections (src/protocol/shared.rs) gets none by using its WebSocket writer.
use tws_rust.Prelude.{ℕ, length, Bool, true, false, [], ◌∷◌, Option, none, some, ◌≡◌, refl, ap, ◌∙◌}
use tws_rust.Text.Bytes.{Bytes}
use tws_rust.Text.Bytes.{bytes_key}
use tws_rust.Map.{Map, modify}
use tws_rust.Protocol.Data.{data_build, udp_data_build}
use tws_rust.Session.Connection
use tws_rust.Util.SharedStream.Keeps.{Holds, feed-Holds, poll-Holds}
use tws_rust.Session.Connection.{Connection}
use tws_rust.Session.Message.{OwnedMessage, binary, get_size}
use tws_rust.Session.ReadThrottle.{
  Core, pause, resume, pause_loop, sort_by_speed, speeds, sum_speeds, resume_marked,
  read_throttling, each_handle,
}
use tws_rust.Session.Service.{
  Session, core_or, feed_ws, poll_ws, forward_tcp, forward_udp, with_connections,
}
use tws_rust.Udp.Handle

abbrev pub IsQuiet : Core → Type 0
IsQuiet core = (core.connections ≡ []) × (core.udp_connections ≡ [])

pause-IsQuiet :
    (now max_speed : ℕ) (core : Core) → IsQuiet core → IsQuiet (pause now max_speed core)
unfolding pause pause_loop sort_by_speed speeds
pause-IsQuiet now max_speed core (none_tcp, none_udp) =
    let flagged = record core {
      paused = true;
      handles = each_handle Handle.pause core.udp_connections core.handles;
    } in
    let idle : pause now max_speed core ≡ flagged =
      ap
        (λ (m : Map Bytes Connection).
          let it = sort_by_speed (speeds now m) in pause_loop max_speed (sum_speeds it) it flagged)
        none_tcp in
    (
      ap (λ (c : Core). c.connections) idle ∙ none_tcp,
      ap (λ (c : Core). c.udp_connections) idle ∙ none_udp,
    )

resume_marked_empty : (marks : Map Bytes Bool) → resume_marked marks [] ≡ []
unfolding resume_marked tws_rust.Map.modify
resume_marked_empty [] = refl
resume_marked_empty ((id, true) ∷ rest) = resume_marked_empty rest
resume_marked_empty ((id, false) ∷ rest) = resume_marked_empty rest

resume-IsQuiet : (core : Core) → IsQuiet core → IsQuiet (resume core)
unfolding resume
resume-IsQuiet core (none_tcp, none_udp) =
    (ap (resume_marked core.pause_state) none_tcp ∙ resume_marked_empty core.pause_state, none_udp)

core_or-IsQuiet :
    (o : Option Core) (core : Core) → Holds IsQuiet o → IsQuiet core → IsQuiet (core_or o core)
core_or-IsQuiet none core h q = q
core_or-IsQuiet (some c) core h q = h

pub feed_ws-IsQuiet :
    (now : ℕ) (msg : OwnedMessage) (s : Session) → IsQuiet s.core → IsQuiet (feed_ws now msg s).core
unfolding feed_ws
feed_ws-IsQuiet now msg s q =
    core_or-IsQuiet _ s.core
      (feed-Holds get_size (read_throttling now) IsQuiet (pause-IsQuiet now) resume-IsQuiet now msg
        (record s.writer { handler = some s.core }) q)
      q

pub poll_ws-IsQuiet :
    (now current : ℕ) (s : Session) → IsQuiet s.core → IsQuiet (poll_ws now current s).1.core
unfolding poll_ws
poll_ws-IsQuiet now current s q =
    core_or-IsQuiet _ s.core
      (poll-Holds get_size (read_throttling now) IsQuiet (pause-IsQuiet now) resume-IsQuiet now
        current (record s.writer { handler = some s.core }) q)
      q

pub forward_tcp-IsQuiet :
    (now : ℕ) (conn_id bytes : Bytes) (s : Session)
    → IsQuiet s.core
    → IsQuiet (forward_tcp now conn_id bytes s).core
unfolding forward_tcp modify
forward_tcp-IsQuiet now conn_id bytes s q =
    feed_ws-IsQuiet now (binary (data_build conn_id bytes))
      (with_connections (modify conn_id (Connection.on_read now (length bytes)) s.core.connections)
        s)
      (ap (modify conn_id (Connection.on_read now (length bytes))) q.0, q.1)

pub forward_udp-IsQuiet :
    (now : ℕ) (conn_id bytes : Bytes) (s : Session)
    → IsQuiet s.core
    → IsQuiet (forward_udp now conn_id bytes s).core
unfolding forward_udp
forward_udp-IsQuiet now conn_id bytes s q =
    feed_ws-IsQuiet now (binary (udp_data_build conn_id bytes)) s q
