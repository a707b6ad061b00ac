-- ===== src/Udp/Datagram/Sound.antt =====
-- The two maps of `UdpDatagram` of src/protocol/udp.rs stay inverse to each other.
use tws_rust.Prelude.{
  ℕ, ◌+◌, ◌<◌, List, [], ◌∷◌, Bool, true, Option, none, some, ◌≡◌, refl, ◌∙◌, arith, inl, inr,
  Option-cases,
}
use tws_rust.Prelude.Equality.{nat_key}
use tws_rust.Text.Bytes.{Bytes}
use tws_rust.Net.Addr.{SocketAddr, addr_key}
use tws_rust.Map.{get}
use tws_rust.Map.Distinct.{distinct, distinct-insert, distinct-remove, distinct-modify}
use tws_rust.Util.SharedStream.{first_task}
use tws_rust.Udp.Stream.{UdpState, write}
use tws_rust.Udp.Stream
use tws_rust.Udp.Datagram.{
  Datagram, usize_max, wrap_socket, connect, add_conn, remove_conn, remove_conns, idle_ids, touch,
  touch_id, touch_target, try_send, flush, purge, accept,
}
use tws_rust.Udp.Datagram.Inverse.{
  IsInverse, Linked, linked, modify-IsInverse, remove-IsInverse, insert-IsInverse,
}

-- Each peer has one connection and each connection has one peer.
abbrev pub IsSound : Datagram → Type 0
IsSound d =
    IsInverse d.conn_states d.conn_states_reverse_map d.counter × (distinct d.conn_states ≡ true)

pub links : (d : Datagram) → IsSound d → Linked d.conn_states d.conn_states_reverse_map d.counter
links d h = linked d.conn_states d.conn_states_reverse_map d.counter h.0

-- The same peers' numbers are given out as before.
abbrev pub Keeps : Datagram → Datagram → Type 0
Keeps d d' = IsSound d' × (d'.counter ≡ d.counter)

touch_id-Keeps : (now : ℕ) (o : Option ℕ) (d : Datagram) → IsSound d → Keeps d (touch_id now o d)
unfolding touch
touch_id-Keeps now none d h = (h, refl)
touch_id-Keeps now (some id) d h = (
  (
    modify-IsInverse d.conn_states d.conn_states_reverse_map d.counter h.0 id (touch now)
        (λ s. refl),
    distinct-modify id (touch now) d.conn_states h.1,
  ),
  refl,
)

pub touch_target-Keeps :
    (now : ℕ) (target : Option SocketAddr) (d : Datagram)
    → IsSound d
    → Keeps d (touch_target now target d)
touch_target-Keeps now none d h = touch_id-Keeps now (some 0) d h
touch_target-Keeps now (some addr) d h = touch_id-Keeps now (get addr d.conn_states_reverse_map) d h

try_send-Keeps :
    (now : ℕ) (taken : Bool) (buf : List (Option SocketAddr × Bytes)) (d : Datagram)
    → IsSound d
    → Keeps d (try_send now taken buf d)
try_send-Keeps now taken [] d h = (h, refl)
try_send-Keeps now taken ((target, bytes) ∷ rest) d h = touch_target-Keeps now target d h

pub flush-Keeps :
    (now current : ℕ) (taken : Bool) (d : Datagram)
    → IsSound d
    → Keeps d (flush now current taken d)
unfolding flush
flush-Keeps now current taken d h =
    try_send-Keeps now taken d.handle.buf
      (record d { handle = record d.handle { task = first_task d.handle.task current } }) h

pub remove_conn-Keeps : (id : ℕ) (d : Datagram) → IsSound d → Keeps d (remove_conn id d)
unfolding remove_conn
remove_conn-Keeps id d h = elim (Option-cases (get id d.conn_states)) [
  | inl e ↦ rw e (h, refl)
  | inr (conn, e) ↦ rw e (
    (
      remove-IsInverse d.conn_states d.conn_states_reverse_map d.counter h.0 id conn e,
      distinct-remove id d.conn_states h.1,
    ),
    refl,
  )
]

remove_conns-Keeps : (ids : List ℕ) (d : Datagram) → IsSound d → Keeps d (remove_conns ids d)
unfolding remove_conns
remove_conns-Keeps [] d h = (h, refl)
remove_conns-Keeps (id ∷ ids) d h =
    let (sound, same) = remove_conn-Keeps id d h in
    let (sound', same') = remove_conns-Keeps ids (remove_conn id d) sound in (sound', same' ∙ same)

pub purge-Keeps : (now : ℕ) (d : Datagram) → IsSound d → Keeps d (purge now d)
unfolding purge
purge-Keeps now d h = remove_conns-Keeps (idle_ids now d.timeout d.conn_states) d h

pub remote-accept :
    (now : ℕ) (bytes : Bytes) (s : UdpState) → (accept now bytes s).remote ≡ s.remote
unfolding accept write Stream.wake
remote-accept now bytes s = ground arith

pub remote-write : (now : ℕ) (bytes : Bytes) (s : UdpState) → (write now bytes s).remote ≡ s.remote
unfolding write
remote-write now bytes s = ground arith

pub remote-poll : (now current : ℕ) (s : UdpState) → (Stream.poll now current s).1.remote ≡ s.remote
unfolding Stream.poll
remote-poll now current s = ground arith

pub add_conn-IsSound :
    (conn : UdpState) (d : Datagram)
    → IsSound d
    → get conn.remote d.conn_states_reverse_map ≡ none
    → d.counter < usize_max
    → IsSound (add_conn conn d) × ((add_conn conn d).counter ≡ d.counter + 1)
unfolding add_conn
add_conn-IsSound conn d h fresh room =
    let next : (add_conn conn d).counter ≡ d.counter + 1 = ground arith in
    (
      (
        insert-IsInverse d.conn_states d.conn_states_reverse_map d.counter h.0 conn
            (add_conn conn d).counter fresh (omega (arith, next)),
        distinct-insert d.counter conn d.conn_states h.1,
      ),
      next,
    )

pub wrap_socket-IsSound : (timeout : ℕ) (single : Bool) → IsSound (wrap_socket timeout single)
unfolding wrap_socket get distinct
wrap_socket-IsSound timeout single = (((λ addr. tt), (λ id. tt)), refl)

pub connect-IsSound :
    (now : ℕ) (addr : SocketAddr) (timeout : ℕ) → IsSound (connect now addr timeout)
unfolding connect get wrap_socket Stream.new
connect-IsSound now addr timeout =
    (add_conn-IsSound (Stream.new now addr timeout) (wrap_socket timeout true)
      (wrap_socket-IsSound timeout true) refl (omega arith)).0
