-- ===== src/Udp/Datagram/Run.antt =====
-- A run of `UdpDatagram` of src/protocol/udp.rs: the socket, its handle and its streams used in any order.
use tws_rust.Prelude.{
  ℕ, ◌+◌, ◌<◌, ◌≤◌, List, [], ◌∷◌, length, Bool, true, false, Option, none, some, ◌≡◌, refl, sym,
  ap, ◌∙◌, arith, by_if, subst,
}
use tws_rust.Prelude.Equality.{nat_key}
use tws_rust.Text.Bytes.{Bytes}
use tws_rust.Net.Addr.{SocketAddr, addr_key}
use tws_rust.Map.{get, modify}
use tws_rust.Map.Distinct.{distinct, distinct-modify}
use tws_rust.Util.Throttling.{ended}
use tws_rust.Udp.Handle.{Handle, sent}
use tws_rust.Udp.Handle
use tws_rust.Udp.Stream.{UdpState, write}
use tws_rust.Udp.Stream
use tws_rust.Udp.Datagram.{
  Datagram, Received, nothing, broken, packet, Outcome, usize_max, wrap_socket, add_conn, flush,
  purge, accept, deliver_to, deliver, receive, poll, is_closed,
}
use tws_rust.Udp.Datagram.Inverse.{IsInverse, modify-IsInverse}
use tws_rust.Udp.Datagram.Sound.{
  IsSound, links, flush-Keeps, purge-Keeps, add_conn-IsSound, remote-accept, remote-write,
  remote-poll, wrap_socket-IsSound,
}

-- The event loop polls the socket or the stream of a connection, and the session uses the handle.
pub data Event : Type 0 where
  polls : ℕ → ℕ → Bool → Received → Event
  stream_polls : ℕ → ℕ → ℕ → Event
  sends : Option SocketAddr → Bytes → Event
  pauses resumes : Event

abbrev pub polled : Outcome → Option Datagram
polled none = none
polled (some (out, d)) = some d

unfoldable pub step : Event → Datagram → Option Datagram
unfolding poll Handle.pause Handle.resume
step (polls now current taken received) d = polled (poll now current taken received d)
step (stream_polls id now current) d =
    some (record d { conn_states = modify id (λ s. (Stream.poll now current s).1) d.conn_states })
step (sends target bytes) d = some (record d { handle = sent target bytes d.handle })
step pauses d = some (record d { handle = Handle.pause d.handle })
step resumes d = some (record d { handle = Handle.resume d.handle })

abbrev and_then : Option Datagram → (Datagram → Option Datagram) → Option Datagram
and_then none next = none
and_then (some d) next = next d

unfoldable pub run : List Event → Datagram → Option Datagram
unfolding step
run [] d = some d
run (ev ∷ evs) d = and_then (step ev d) (run evs)

-- The run goes on, in a sound state, and has given out one number at most.
abbrev pub Runs : ℕ → Option Datagram → Type 0
Runs bound o = (d' : Datagram) × (o ≡ some d') × IsSound d' × (d'.counter ≤ bound)

deliver_to-Runs :
    (now current : ℕ) (bytes : Bytes) (id : ℕ) (s : UdpState) (d : Datagram)
    → IsSound d
    → Runs (d.counter + 1) (polled (deliver_to now current bytes id (some s) d))
deliver_to-Runs now current bytes id s d h = (
  _,
  refl,
  by_if (λ m. IsInverse m d.conn_states_reverse_map d.counter × (distinct m ≡ true)) d.handle.paused
      h
      (
        modify-IsInverse d.conn_states d.conn_states_reverse_map d.counter h.0 id (accept now bytes)
            (remote-accept now bytes),
        distinct-modify id (accept now bytes) d.conn_states h.1,
      ),
  omega arith,
)

deliver-Runs :
    (now current : ℕ) (bytes : Bytes) (addr : SocketAddr) (o : Option ℕ) (d : Datagram)
    → get addr d.conn_states_reverse_map ≡ o
    → IsSound d
    → d.counter < usize_max
    → Runs (d.counter + 1) (polled (deliver now current bytes addr o d))
unfolding Stream.new
deliver-Runs now current bytes addr (some id) d e h room =
    let (s, there, peer) = (links d h).0 addr id e in
    subst (λ x. Runs (d.counter + 1) (polled (deliver_to now current bytes id x d))) (sym there)
      (deliver_to-Runs now current bytes id s d h)
deliver-Runs now current bytes addr none d e h room =
    let conn : UdpState = write now bytes (Stream.new now addr d.timeout) in
    let fresh =
      ap (λ a. get a d.conn_states_reverse_map)
        (remote-write now bytes (Stream.new now addr d.timeout))
      ∙ e in
    let (sound, next) = add_conn-IsSound conn d h fresh room in
    (add_conn conn d, refl, sound, omega (arith, next))

receive-Runs :
    (now current : ℕ) (received : Received) (d : Datagram)
    → IsSound d
    → d.counter < usize_max
    → Runs (d.counter + 1) (polled (receive now current received d))
unfolding receive
receive-Runs now current nothing d h room = (_, refl, h, omega arith)
receive-Runs now current broken d h room = (_, refl, h, omega arith)
receive-Runs now current (packet bytes addr) d h room =
    deliver-Runs now current bytes addr (get addr d.conn_states_reverse_map) d refl h room

poll-Runs :
    (now current : ℕ) (taken : Bool) (received : Received) (d : Datagram)
    → IsSound d
    → d.counter < usize_max
    → Runs (d.counter + 1) (polled (poll now current taken received d))
unfolding poll
poll-Runs now current taken received d h room =
    let (flushed, same) = flush-Keeps now current taken d h in
    let (purged, same') = purge-Keeps now (flush now current taken d) flushed in
    let d' = purge now (flush now current taken d) in
    let counter : d'.counter ≡ d.counter = same' ∙ same in
    by_if (λ (o : Outcome). Runs (d.counter + 1) (polled o)) (is_closed d') {x = some (ended, d')}
      (d', refl, purged, omega (arith, counter))
      (subst (λ n. Runs (n + 1) (polled (receive now current received d'))) counter
        (receive-Runs now current received d' purged (omega (arith, counter))))

step-Runs :
    (ev : Event) (d : Datagram)
    → IsSound d
    → d.counter < usize_max
    → Runs (d.counter + 1) (step ev d)
unfolding step
step-Runs (polls now current taken received) d h room =
    poll-Runs now current taken received d h room
step-Runs (stream_polls id now current) d h room = (
  _,
  refl,
  (
    modify-IsInverse d.conn_states d.conn_states_reverse_map d.counter h.0 id
        (λ s. (Stream.poll now current s).1) (remote-poll now current),
    distinct-modify id (λ s. (Stream.poll now current s).1) d.conn_states h.1,
  ),
  omega arith,
)
step-Runs (sends target bytes) d h room = (_, refl, h, omega arith)
step-Runs pauses d h room = (_, refl, h, omega arith)
step-Runs resumes d h room = (_, refl, h, omega arith)

-- From a sound state, a run that cannot use up the numbers of a machine word never panics and leaves the
-- state sound: each peer has one connection and each connection is its peer's.
pub run-IsSound :
    (evs : List Event) (d : Datagram)
    → IsSound d
    → d.counter + length evs < usize_max
    → Runs (d.counter + length evs) (run evs d)
unfolding run
run-IsSound [] d h room = (d, refl, h, omega arith)
run-IsSound (ev ∷ evs) d h room =
    let (d', e, sound, bound) = step-Runs ev d h (omega arith) in
    let (d'', e', sound', bound') = run-IsSound evs d' sound (omega (arith, bound)) in
    (d'', ap (λ o. and_then o (run evs)) e ∙ e', sound', omega (arith, bound, bound'))

-- A server's socket that is used fewer than 2^64 - 1 times never panics.
pub run-wrap_socket :
    (evs : List Event) (timeout : ℕ)
    → length evs < usize_max
    → (d : Datagram) × (run evs (wrap_socket timeout false) ≡ some d) × IsSound d
unfolding wrap_socket
run-wrap_socket evs timeout room =
    let (d, e, sound, bound) =
      run-IsSound evs (wrap_socket timeout false) (wrap_socket-IsSound timeout false)
        (omega (arith, room)) in
    (d, e, sound)
