-- ===== src/Udp/Datagram/Visitor.antt =====
-- The first packet of a peer that `UdpDatagram::poll` of src/protocol/udp.rs does not know.
use tws_rust.Prelude.{
  ℕ, Bool, false, ◌&&◌, none, some, ◌≡◌, refl, ap, ◌∙◌, inl, inr, Option-cases, if_false, if_true,
  if◌then◌else◌, arith,
}
use tws_rust.Prelude.Equality.{nat_key, beq_refl}
use tws_rust.Text.Bytes.{Bytes}
use tws_rust.Net.Addr.{SocketAddr, addr_key, addr_eq}
use tws_rust.Map.{get}
use tws_rust.Util.Throttling.{ready}
use tws_rust.Udp.Stream.{UdpState, write}
use tws_rust.Udp.Stream
use tws_rust.Udp.Datagram.{
  Datagram, packet, add_conn, deliver, receive, poll, flush, is_closed, is_empty,
}
use tws_rust.Udp.Datagram.Sound.{IsSound, links, flush-Keeps, purge-Keeps, remote-write}
use tws_rust.Udp.Datagram.Peers.{peer, peer-add_conn}
use tws_rust.Udp.Datagram.Prepared.{settled, prepared, peer-prepared}
use tws_rust.Udp.Datagram.Sending.{prepared_close}

-- Without a connection there is no number.
no_number :
    (addr : SocketAddr) (d : Datagram)
    → IsSound d
    → peer addr d ≡ none
    → get addr d.conn_states_reverse_map ≡ none
no_number addr d h e = elim (Option-cases (get addr d.conn_states_reverse_map)) [
  | inl nothing_there ↦ nothing_there
  | inr (i, there) ↦
      let (s, found, own) = (links d h).0 addr i there in
      let known : peer addr d ≡ some (i, s) = rw (there, found) refl in absurd (ground arith)
]

-- On a socket that does not close with its last connection, a peer that has no connection, or whose connection is idle,
-- gets a new one with its first packet, even while the socket is paused: the socket gives out a stream for the peer's
-- address, and the first item of that stream is the packet.
pub poll-visitor :
    (now current later task : ℕ) (taken : Bool) (bytes : Bytes) (addr : SocketAddr) (d : Datagram)
    → IsSound d
    → d.close_if_no_conn ≡ false
    → settled now d addr ≡ none
    → (n : ℕ) × (d' : Datagram) × (s : UdpState) × (poll now current taken (packet bytes addr) d
        ≡ some (ready (addr, n), d'))
      × (peer addr d' ≡ some (n, s))
      × ((Stream.poll later task s).0 ≡ ready bytes)
unfolding poll prepared receive Stream.new write Stream.poll
poll-visitor now current later task taken bytes addr d h shared fresh =
    let before = prepared now current taken d in
    let sound =
      (purge-Keeps now (flush now current taken d) (flush-Keeps now current taken d h).0).0 in
    let conn : UdpState = write now bytes (Stream.new now addr before.timeout) in
    let own : conn.remote ≡ addr = remote-write now bytes (Stream.new now addr before.timeout) in
    let unknown = no_number addr before sound (peer-prepared now current taken addr d h ∙ fresh) in
    let goes_on : is_closed before ≡ false =
      ap (λ b. b && is_empty before.conn_states) (prepared_close now current taken d ∙ shared) in
    (
      before.counter,
      add_conn conn before,
      conn,
      if_false (is_closed before) _ _ goes_on
          ∙ ap (λ o. deliver now current bytes addr o before) unknown,
      peer-add_conn conn addr before sound
          ∙ ap (λ a. if addr_eq a addr then some (before.counter, conn) else peer addr before) own
          ∙ if_true (addr_eq addr addr) _ _ (beq_refl addr),
      refl,
    )
