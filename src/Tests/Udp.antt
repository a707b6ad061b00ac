-- ===== src/Tests/Udp.antt =====
-- The UDP socket (src/protocol/udp.rs) on concrete inputs.
use tws_rust.Prelude.{ℕ, List, [], ◌∷◌, true, false, Option, some, ◌≡◌, refl, arith}
use tws_rust.Text.Bytes.{Bytes, codes}
use tws_rust.Net.Addr.{SocketAddr, v4_addr}
use tws_rust.Map.{get}
use tws_rust.Util.Throttling.{ended, not_ready, ready}
use tws_rust.Udp.Stream.{UdpState, poll_times-ended}
use tws_rust.Udp.Stream
use tws_rust.Udp.Datagram.{Datagram, packet, nothing, wrap_socket, poll}
use tws_rust.Udp.Datagram.Run.{Event, polls, stream_polls, sends, run, run-wrap_socket}
use tws_rust.Udp.Datagram.Sending.{poll_sends_one}
use tws_rust.Udp.Datagram.Sound.{IsSound}
use tws_rust.Udp.Datagram.Peers.{peer}
use tws_rust.Udp.Datagram.Visitor.{poll-visitor}
use tws_rust.Udp.Datagram.Sound.{wrap_socket-IsSound}

abbrev one : SocketAddr
one = v4_addr 10 0 0 7 5000

abbrev other : SocketAddr
other = v4_addr 10 0 0 8 5000

abbrev traffic : List Event
traffic =
    polls 1 1 true (packet (codes "a") one)
    ∷ polls 2 1 true (packet (codes "b") other)
    ∷ sends (some one) (codes "c")
    ∷ stream_polls 0 3 2
    ∷ polls 150 1 true (packet (codes "d") one)
    ∷ []

socket_example : (d : Datagram) × (run traffic (wrap_socket 100 false) ≡ some d) × IsSound d
socket_example = run-wrap_socket traffic 100 (omega arith)

abbrev silent : UdpState
silent = record {
  remote = one;
  buf = codes "x" ∷ codes "y" ∷ [];
  err = false;
  task = some 1;
  timeout = 100;
  last_activity = 20;
  notified = [];
}

ended_example :
    ((Stream.poll_times 2 200 1 silent).0 ≡ codes "x" ∷ codes "y" ∷ [])
    × ((Stream.poll 200 1 (Stream.poll_times 2 200 1 silent).1).0 ≡ ended)
ended_example = poll_times-ended 200 1 silent refl (omega arith)

abbrev one_left : List (Option SocketAddr × Bytes)
one_left = (some other, codes "b") ∷ []

abbrev busy : Datagram
unfolding wrap_socket
busy = record (wrap_socket 100 false) {
  handle = record (wrap_socket 100 false).handle { buf = (some one, codes "a") ∷ one_left };
}

sending_example :
    (d' : Datagram) × (poll 5 1 true nothing busy ≡ some (not_ready, d'))
    × (d'.handle.buf ≡ one_left)
    × (d'.handle.notified ≡ busy.handle.notified)
unfolding busy wrap_socket
sending_example = poll_sends_one 5 1 (some one, codes "a") one_left busy refl refl

visitor_example :
    (n : ℕ) × (d' : Datagram) × (s : UdpState) × (poll 5 1 true
        (packet (codes "a") one)
        (wrap_socket 100 false)
      ≡ some (ready (one, n), d'))
    × (peer one d' ≡ some (n, s))
    × ((Stream.poll 9 2 s).0 ≡ ready (codes "a"))
unfolding wrap_socket get
visitor_example =
    poll-visitor 5 1 9 2 true (codes "a") one (wrap_socket 100 false)
      (wrap_socket-IsSound 100 false) refl refl
