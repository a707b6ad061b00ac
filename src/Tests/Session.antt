-- ===== src/Tests/Session.antt =====
-- The parts that both sides' sessions share (src/protocol/shared.rs, src/protocol/udp.rs) on concrete inputs.
use tws_rust.Prelude.{
  ◌++◌, if◌then◌else◌, List, [], ◌∷◌, ◌++◌, ◌⊎◌, true, false, ltb, Option, none, some, ◌≡◌, refl,
  ◌↔◌,
}
use tws_rust.Text.Bytes.{Bytes}
use tws_rust.Net.Addr.{SocketAddr, v4_addr}
use tws_rust.Text.Bytes.{bytes_key}
use tws_rust.Map.{contains_key}
use tws_rust.Session.Connection.{Request, pauses, resumes, create, level, run-create}
use tws_rust.Session.Connection
use tws_rust.Session.ReadThrottle.{
  Core, run_idle, SlowestFirst, sort_by_speed, sort_by_speed-SlowestFirst,
}
use tws_rust.Session.ReadThrottle
use tws_rust.Session.Service.{Session, close_conn}
use tws_rust.Util.SharedStream
use tws_rust.Session.Message.{text}
use tws_rust.Protocol.Packet.{closed}
use tws_rust.Protocol.State.{connect_state_build}
use tws_rust.Session.Close.{close_conn_twice}
use tws_rust.Server.State.{new, empty_core}
use tws_rust.Udp.Handle.{send_all, send_all_lem, keep}
use tws_rust.Udp.Handle
use tws_rust.Udp.Stream.{UdpState, poll, write, poll_ends}
use tws_rust.Udp.Stream
use tws_rust.Util.Heartbeat.{Beat, tick, pong}
use tws_rust.Session.Heartbeat
use tws_rust.Tests.Toy.{passwd, id}

abbrev peer : SocketAddr
peer = v4_addr 10 0 0 7 5000

abbrev requests : List Request
requests = pauses ∷ pauses ∷ resumes ∷ []

counter_example :
    (Connection.run requests (create id 3)).read_throttler.paused ≡ ltb 0 (level requests 0)
counter_example = run-create id 3 requests

abbrev one_connection : Core
one_connection = record empty_core { connections = (id, create id 3) ∷ [] }

abbrev calls : List ReadThrottle.Call
calls = ReadThrottle.pauses 9_000_000_000 0 ∷ ReadThrottle.resumes ∷ []

idle_example :
    ((ReadThrottle.run calls one_connection).connections ≡ one_connection.connections)
    × ((ReadThrottle.run calls one_connection).pause_state ≡ [])
idle_example = run_idle calls one_connection refl

abbrev with_one : Session
unfolding new
with_one =
    record (new 0 (record { passwd = passwd; no_udp = false; accept_remotes = [] }) peer).session {
      core = one_connection;
    }

twice_example :
    (contains_key id (close_conn 5 id with_one).core.connections ≡ false)
    × ((close_conn 5 id with_one).writer.queue ≡ (
        if contains_key id with_one.core.connections
        then with_one.writer.queue ++ text (connect_state_build id closed) ∷ []
        else with_one.writer.queue))
    × (close_conn 6 id (close_conn 5 id with_one) ≡ close_conn 5 id with_one)
unfolding with_one new SharedStream.new SharedStream.run SharedStream.clone
twice_example = close_conn_twice 5 6 id with_one refl

abbrev datagrams : List (Option SocketAddr × Bytes)
datagrams =
    (none, 1 ∷ [])
    ∷ (none, 2 ∷ [])
    ∷ (some peer, 3 ∷ [])
    ∷ (none, 4 ∷ [])
    ∷ (none, 5 ∷ [])
    ∷ (none, 6 ∷ [])
    ∷ []

sent_example : (send_all datagrams Handle.new).buf ≡ keep 5 datagrams
unfolding Handle.new
sent_example = send_all_lem datagrams Handle.new refl

abbrev stream : UdpState
unfolding Stream.new write
stream = write 4 (7 ∷ []) (write 3 (8 ∷ 9 ∷ []) (Stream.new 0 peer 100))

abbrev arrivals : List Bytes
arrivals = (1 ∷ []) ∷ (2 ∷ []) ∷ (3 ∷ []) ∷ (4 ∷ []) ∷ (5 ∷ []) ∷ (6 ∷ []) ∷ []

abbrev beats : List Beat
beats = tick ∷ pong ∷ tick ∷ tick ∷ []

timeout_example :
    (((Heartbeat.run 5 beats (false, with_one)).0 ≡ true)
      ↔ ((pre : List Beat) × (post : List Beat) × (beats ≡ pre ++ tick ∷ tick ∷ post)))
    × (((Heartbeat.run 5 beats (false, with_one)).0 ≡ false)
        ⊎ ((Heartbeat.run 5 beats (false, with_one)).1.writer.finished ≡ true))
unfolding with_one
timeout_example = Heartbeat.run-timed_out 5 beats with_one refl
