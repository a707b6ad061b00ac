-- ===== src/Udp/Datagram/Prepared.antt =====
-- What `UdpDatagram::poll` of src/protocol/udp.rs does for each peer before it reads.
use tws_rust.Prelude.{
  ℕ, List, [], ◌∷◌, Bool, Option, none, some, ◌≡◌, refl, ap, ◌∙◌, inl, inr, Option-cases,
}
use tws_rust.Prelude.Equality.{nat_key}
use tws_rust.Text.Bytes.{Bytes}
use tws_rust.Net.Addr.{SocketAddr, addr_key}
use tws_rust.Map.{get}
use tws_rust.Util.SharedStream.{first_task}
use tws_rust.Udp.Stream.{UdpState}
use tws_rust.Udp.Datagram.{
  Datagram, remove_conn, remove_conns, idle_ids, is_idle, touch_id, touch_target, try_send, flush,
  purge,
}
use tws_rust.Udp.Datagram.Sound.{IsSound, flush-Keeps}
use tws_rust.Udp.Datagram.Peers.{peer, on_conn, touched, peer-touch_target}
use tws_rust.Udp.Datagram.Idle.{unless, peer-purge}

-- What a poll does for a peer before it reads: the first packet of the queue counts as activity of the peer
-- that it goes to, and an idle connection goes.
abbrev pub flushed :
    ℕ
    → List (Option SocketAddr × Bytes)
    → SocketAddr
    → Option (ℕ × UdpState)
    → Option (ℕ × UdpState)
flushed now [] addr o = o
flushed now ((target, bytes) ∷ rest) addr o = on_conn (touched now target addr) o

abbrev pub settled : ℕ → Datagram → SocketAddr → Option (ℕ × UdpState)
settled now d addr =
    on_conn (λ id s. unless (is_idle now d.timeout s) s)
      (flushed now d.handle.buf addr (peer addr d))

abbrev pub SameSocket : Datagram → Datagram → Type 0
SameSocket d d' = (d'.timeout ≡ d.timeout) × (d'.handle.paused ≡ d.handle.paused)

touch_id-SameSocket : (now : ℕ) (o : Option ℕ) (d : Datagram) → SameSocket d (touch_id now o d)
touch_id-SameSocket now none d = (refl, refl)
touch_id-SameSocket now (some id) d = (refl, refl)

touch_target-SameSocket :
    (now : ℕ) (target : Option SocketAddr) (d : Datagram) → SameSocket d (touch_target now target d)
touch_target-SameSocket now none d = (refl, refl)
touch_target-SameSocket now (some a) d = touch_id-SameSocket now (get a d.conn_states_reverse_map) d

try_send-SameSocket :
    (now : ℕ) (taken : Bool) (buf : List (Option SocketAddr × Bytes)) (d : Datagram)
    → SameSocket d (try_send now taken buf d)
try_send-SameSocket now taken [] d = (refl, refl)
try_send-SameSocket now taken ((target, bytes) ∷ rest) d = touch_target-SameSocket now target d

remove_conns-SameSocket : (ids : List ℕ) (d : Datagram) → SameSocket d (remove_conns ids d)
unfolding remove_conns remove_conn
remove_conns-SameSocket [] d = (refl, refl)
remove_conns-SameSocket (i ∷ ids) d =
    let (t, p) = remove_conns-SameSocket ids (remove_conn i d) in
    elim (Option-cases (get i d.conn_states)) [
      | inl e ↦ (t ∙ rw e refl, p ∙ rw e refl)
      | inr (conn, e) ↦ (t ∙ rw e refl, p ∙ rw e refl)
    ]

-- The state in which a poll reads.
unfoldable pub prepared : ℕ → ℕ → Bool → Datagram → Datagram
prepared now current taken d = purge now (flush now current taken d)

pub prepared-SameSocket :
    (now current : ℕ) (taken : Bool) (d : Datagram) → SameSocket d (prepared now current taken d)
unfolding prepared purge flush
prepared-SameSocket now current taken d =
    let task = record d { handle = record d.handle { task = first_task d.handle.task current } } in
    let f = flush now current taken d in
    let (t, p) = try_send-SameSocket now taken d.handle.buf task in
    let (t', p') = remove_conns-SameSocket (idle_ids now f.timeout f.conn_states) f in
    (t' ∙ t, p' ∙ p)

peer-try_send :
    (now : ℕ) (taken : Bool) (buf : List (Option SocketAddr × Bytes)) (addr : SocketAddr)
    (d : Datagram)
    → IsSound d
    → peer addr (try_send now taken buf d) ≡ flushed now buf addr (peer addr d)
peer-try_send now taken [] addr d h = refl
peer-try_send now taken ((target, bytes) ∷ rest) addr d h = peer-touch_target now target addr d h

pub peer-prepared :
    (now current : ℕ) (taken : Bool) (addr : SocketAddr) (d : Datagram)
    → IsSound d
    → peer addr (prepared now current taken d) ≡ settled now d addr
unfolding prepared flush
peer-prepared now current taken addr d h =
    let task = record d { handle = record d.handle { task = first_task d.handle.task current } } in
    let f = flush now current taken d in
    let (t, p) = try_send-SameSocket now taken d.handle.buf task in
    peer-purge now addr f (flush-Keeps now current taken d h).0
    ∙ ap (λ limit. on_conn (λ id s. unless (is_idle now limit s) s) (peer addr f)) t
    ∙ ap (on_conn (λ id s. unless (is_idle now d.timeout s) s))
        (peer-try_send now taken d.handle.buf addr task h)
