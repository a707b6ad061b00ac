-- ===== src/Session/Service.antt =====
-- What the sessions of both sides do alike: `TwsService` of src/protocol/shared.rs, and the ways in which
-- a session reaches its WebSocket writer and its TCP writers.
use tws_rust.Prelude.{ℕ, List, [], ◌∷◌, Bool, if◌then◌else◌, length, Option, none, some}
use tws_rust.Text.Bytes.{Bytes}
use tws_rust.Text.Bytes.{bytes_key}
use tws_rust.Map.{Map, get, insert, contains_key, remove, modify}
use tws_rust.Protocol.Packet.{ConnectionState, closed, is_pause, is_resume}
use tws_rust.Protocol.State.{connect_state_build}
use tws_rust.Protocol.Data.{data_build, udp_data_build}
use tws_rust.Util.SharedStream.{SharedState}
use tws_rust.Util.SharedStream
use tws_rust.Session.Message.{OwnedMessage, text, binary, get_size}
use tws_rust.Session.WriteThrottle.{WriteThrottle, write_throttling}
use tws_rust.Session.Connection.{Connection}
use tws_rust.Session.Connection
use tws_rust.Session.ReadThrottle.{Core, UdpConnection, read_throttling}

-- The WebSocket writer's throttling handler works on the session's own state, `core`; the writer's field
-- `handler` is filled with it for the time of a call. `received` is the heartbeat agent's flag. A
-- connection that has been dropped is closed, and its tasks end later: it is kept in `detached`.
pub record Session : Type 0 where
  pub core : Core
  pub writer : SharedState OwnedMessage Core
  pub received : Bool
  pub detached : List Connection

abbrev pub core_or : Option Core → Core → Core
core_or none core = core
core_or (some core') core = core'

-- `get_writer().feed(msg)`
unfoldable pub feed_ws : ℕ → OwnedMessage → Session → Session
unfolding SharedStream.feed get_size
feed_ws now msg s =
    let w =
      SharedStream.feed get_size (read_throttling now) now msg
        (record s.writer { handler = some s.core }) in
    record s { writer = w; core = core_or w.handler s.core }

unfoldable pub feed_ws_all : ℕ → List OwnedMessage → Session → Session
unfolding feed_ws
feed_ws_all now [] s = s
feed_ws_all now (msg ∷ rest) s = feed_ws_all now rest (feed_ws now msg s)

unfoldable pub close_ws : Session → Session
unfolding SharedStream.close
close_ws s = record s { writer = SharedStream.close s.writer }

-- `SharedStream::poll` of the WebSocket writer, with the messages that go out.
unfoldable pub poll_ws : ℕ → ℕ → Session → List OwnedMessage × Session
unfolding SharedStream.poll get_size
poll_ws now current s =
    let (r, w) =
      SharedStream.poll get_size (read_throttling now) now current
        (record s.writer { handler = some s.core }) in
    (SharedStream.emitted r, record s { writer = w; core = core_or w.handler s.core })

abbrev pub with_connections : Map Bytes Connection → Session → Session
with_connections m s = record s { core = record s.core { connections = m } }

abbrev pub with_udp : Map Bytes UdpConnection → Session → Session
with_udp m s = record s { core = record s.core { udp_connections = m } }

-- What a TCP writer's handler has fed goes to the WebSocket writer.
abbrev pub outbox_of : Option WriteThrottle → List OwnedMessage
outbox_of none = []
outbox_of (some h) = h.outbox

abbrev pub emptied : Option WriteThrottle → Option WriteThrottle
emptied none = none
emptied (some h) = some (record h { outbox = [] })

-- The writer of a connection that is fed, with what its handler has fed to the WebSocket writer.
unfoldable pub fed_writer : ℕ → Bytes → Connection → SharedState Bytes WriteThrottle
unfolding SharedStream.feed
fed_writer now bytes c = SharedStream.feed length write_throttling now bytes c.writer

abbrev pub rewritten : SharedState Bytes WriteThrottle → Connection → Connection
rewritten w c = record c { writer = record w { handler = emptied w.handler } }

-- Bytes for a connection, if there is one, go to its writer.
unfoldable pub deliver : ℕ → Bytes → Bytes → Option Connection → Session → Session
unfolding fed_writer feed_ws_all
deliver now conn_id bytes none s = s
deliver now conn_id bytes (some c) s =
    let w = fed_writer now bytes c in
    feed_ws_all now (outbox_of w.handler)
      (with_connections (modify conn_id (rewritten w) s.core.connections) s)

-- `conn.get_writer().feed(Bytes::from(data))`, if there is such a connection.
unfoldable pub feed_tcp : ℕ → Bytes → Bytes → Session → Session
unfolding deliver
feed_tcp now conn_id bytes s = deliver now conn_id bytes (get conn_id s.core.connections) s

-- The reading part of a connection forwards what it has got, and counts it; a connection that is no longer
-- in the table is counted by nobody.
unfoldable pub forward_tcp : ℕ → Bytes → Bytes → Session → Session
unfolding feed_ws
forward_tcp now conn_id bytes s =
    feed_ws now (binary (data_build conn_id bytes)) (
      with_connections (modify conn_id (Connection.on_read now (length bytes)) s.core.connections)
        s)

-- A UDP connection does the same, without counting.
unfoldable pub forward_udp : ℕ → Bytes → Bytes → Session → Session
unfolding feed_ws
forward_udp now conn_id bytes s = feed_ws now (binary (udp_data_build conn_id bytes)) s

-- `_on_connect_state`
unfoldable pub on_pause_resume : Bytes → ConnectionState → Session → Session
on_pause_resume conn_id state s =
    if is_pause state
    then with_connections (modify conn_id Connection.pause s.core.connections) s
    else if is_resume state
    then with_connections (modify conn_id Connection.resume s.core.connections) s
    else s

-- Removing a connection from the table drops it, and `Drop` closes it.
abbrev pub detach : Option Connection → List Connection → List Connection
detach none l = l
detach (some c) l = Connection.close c ∷ l

-- `connections.insert(conn_id, conn)`: a connection under the same identifier is dropped.
unfoldable pub insert_connection : Bytes → Connection → Session → Session
insert_connection conn_id c s = record (with_connections (insert conn_id c s.core.connections) s) {
  detached = detach (get conn_id s.core.connections) s.detached;
}

unfoldable pub drop_connection : Bytes → Session → Session
drop_connection conn_id s = record (with_connections (remove conn_id s.core.connections) s) {
  detached = detach (get conn_id s.core.connections) s.detached;
}

abbrev close_all : Map Bytes Connection → List Connection → List Connection
close_all [] l = l
close_all ((id, c) ∷ rest) l = Connection.close c ∷ close_all rest l

-- `connections.clear()`
unfoldable pub drop_connections : Session → Session
drop_connections s = record (with_connections [] s) {
  detached = close_all s.core.connections s.detached;
}

-- `close_conn`, as far as active connections go: the other side is told once.
unfoldable pub close_conn : ℕ → Bytes → Session → Session
unfolding drop_connection feed_ws
close_conn now conn_id s =
    if contains_key conn_id s.core.connections
    then feed_ws now (text (connect_state_build conn_id closed)) (drop_connection conn_id s)
    else s
