-- ===== src/Tests/Server.antt =====
-- A server session (src/protocol/server.rs) on concrete inputs.
use tws_rust.Prelude.{
  none, if◌then◌else◌, ℕ, ◌||◌, List, [], ◌∷◌, true, false, some, ◌≡◌, ap, arith,
}
use tws_rust.Prelude.Int.{pos}
use tws_rust.Text.Bytes.{Bytes, codes}
use tws_rust.Net.Addr.{SocketAddr, v4, v4_addr}
use tws_rust.Net.Show.{show_v4}
use tws_rust.Protocol.Packet.{handshake}
use tws_rust.Protocol.Dispatch.{parse_packet}
use tws_rust.Protocol.Handshake.Exchange.{parse_packet-handshake_build}
use tws_rust.Session.Message.{text, binary}
use tws_rust.Session.Service.{feed_ws}
use tws_rust.Server.State.{ServerOption, Server, new, empty_core, with_session}
use tws_rust.Server.Handlers.{on_packet, on_message}
use tws_rust.Session.Connection.{create}
use tws_rust.Text.Bytes.{bytes_key}
use tws_rust.Server.Run.{
  Event, messages, remote_data, connected, writes, run, forbids, target, event_target, and_then,
}
use tws_rust.Server.Gate.{IsSound}
use tws_rust.Server.Reach.{run-IsSound}
use tws_rust.Server.Panic.{panics, forbidden, panics-run}
use tws_rust.Server.Listen
use tws_rust.Server.Accept.{Upgrade, client_addr, with_header, client_addr-with_header, is_loopback}
use tws_rust.Tests.Protocol.{handshake_packet, handshake_built}
use tws_rust.Tests.Toy.{toy, toy_text, passwd, id}

abbrev local : SocketAddr
local = v4_addr 192 168 1 1 443

abbrev peer : SocketAddr
peer = v4_addr 10 0 0 7 5000

abbrev open_to_one : ServerOption
open_to_one = record { passwd = passwd; no_udp = false; accept_remotes = local ∷ [] }

abbrev open_to_other : ServerOption
open_to_other = record { passwd = passwd; no_udp = false; accept_remotes = peer ∷ [] }

abbrev greeting : Event
greeting = messages (pos 1_517_476_217_983) 5 true (text handshake_packet)

parsed : parse_packet toy passwd (pos 1_517_476_217_983) handshake_packet ≡ handshake local
parsed =
    parse_packet-handshake_build toy toy_text passwd 1_517_476_212_983 1_517_476_217_983 192 168 1 1
      443 (omega arith) (omega arith) (omega arith) (omega arith) handshake_built

abbrev greeted : Server
greeted = record (new 0 open_to_one peer) {
  remote = some local;
  handshaked = true;
  session = feed_ws 5 (text (codes "hello")) (new 0 open_to_one peer).session;
}

after_greeting : run toy (greeting ∷ []) (new 0 open_to_one peer) ≡ some greeted
unfolding run new tws_rust.Server.Run.step tws_rust.Server.Handlers.on_message on_packet
    tws_rust.Server.State.on_handshake tws_rust.Net.Addr.contains_addr
after_greeting =
    ap (λ p. and_then (on_packet 5 true p (new 0 open_to_one peer)) (run toy [])) parsed

reach_example : IsSound open_to_one peer greeted
reach_example = run-IsSound toy 0 open_to_one peer (greeting ∷ []) greeted after_greeting

panic_example :
    panics (run toy (greeting ∷ []) (new 0 open_to_other peer))
    ≡ forbidden open_to_other peer toy (greeting ∷ [])
panic_example = panics-run toy 0 open_to_other peer (greeting ∷ [])

-- The rejected handshake does make the session panic.
rejected : forbidden open_to_other peer toy (greeting ∷ []) ≡ true
unfolding tws_rust.Net.Addr.contains_addr tws_rust.Net.Addr.addr_eq tws_rust.Net.Addr.ip_eq
rejected = ap (λ p. forbids (peer ∷ []) (target p) || false) parsed

abbrev serving : Server
unfolding new
serving = record (new 0 open_to_one peer) {
  remote = some local;
  handshaked = true;
  session = record (new 0 open_to_one peer).session {
    core = record empty_core { connections = (id, create id 3) ∷ [] };
  };
}

abbrev first_byte : Bytes → ℕ
first_byte [] = 0
first_byte (b ∷ bs) = b

abbrev noise : List Event
noise = messages (pos 9) 1 true (binary (codes "NEW CONNECTION XnjEa2")) ∷ connected 2 id true ∷ []

abbrev outside : Upgrade
outside = record {
  peer_addr = some peer;
  incoming_addr = local;
  real_ip = some (codes "127.0.0.1");
}

outside_example :
    ((client_addr outside).port ≡ peer.port)
    × ((client_addr outside).ip
        ≡ (if is_loopback peer.ip then (client_addr outside).ip else peer.ip))
    × ((client_addr (with_header (some (show_v4 127 0 0 1)) outside)).ip
        ≡ (if is_loopback peer.ip then v4 127 0 0 1 else peer.ip))
    × (client_addr (with_header none outside) ≡ peer)
outside_example = client_addr-with_header outside (some (codes "127.0.0.1")) 127 0 0 1 (omega arith)

abbrev incoming : List Listen.Event
incoming =
    Listen.comes Listen.invalid
    ∷ Listen.comes (Listen.upgrade outside)
    ∷ Listen.comes (Listen.upgrade outside)
    ∷ Listen.ends 3 true 1
    ∷ Listen.ends 4 false 0
    ∷ []
