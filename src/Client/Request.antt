-- ===== src/Client/Request.antt =====
-- What a session of src/protocol/client.rs does with a connection that it is given.
use tws_rust.Prelude.{
  ℕ, ◌<◌, List, ◌∷◌, ◌++◌, true, some, ok, length, All, ◌≡◌, refl, ap, ◌∙◌, arith,
}
use tws_rust.Text.Bytes.{Bytes, bytes_key, codes, newline}
use tws_rust.Map.{get, contains_key, insert}
use tws_rust.Map.Laws.{get-insert, contains_key-insert}
use tws_rust.Prelude.Equality.{beq_refl}
use tws_rust.Session.ReadThrottle.{UdpConnection}
use tws_rust.Net.Addr.{SocketAddr}
use tws_rust.Protocol.Auth.{Crypto, hmac_sha256, build_authenticated_packet}
use tws_rust.Protocol.Connect.{connect_build, udp_connect_build}
use tws_rust.Util.RandStr.{rand_str, rand_str-IsConnId}
use tws_rust.Session.Message.{text}
use tws_rust.Session.UdpTable.{udp_connections-feed_ws}
use tws_rust.Session.Service.{feed_ws, with_udp}
use tws_rust.Client.State.{with_session, Client, add_pending_connection, add_udp_connection}

-- HMAC takes a key of every length.
pub record AcceptsKeys (c : Crypto) : Type 0 where
  pub every_key : (key : Bytes) → (mac : Bytes → Bytes) × (c.new_mac key ≡ some mac)

-- The generator's numbers for an identifier.
abbrev pub IsDraws : List ℕ → Type 0
IsDraws draws = (length draws ≡ 6) × All (λ i. i < 62) draws

-- The connection waits for the server's answer.
abbrev pub Waits : Bytes → Client → Type 0
Waits id s = contains_key id s.pending_connections ≡ true

-- The connection belongs to the UDP client with the address.
abbrev pub Visits : SocketAddr → Bytes → Client → Type 0
Visits addr id s =
    get id s.session.core.udp_connections ≡ some (record { handle = 0; addr = some addr })

build-AcceptsKeys :
    (c : Crypto) (passwd msg : Bytes)
    → AcceptsKeys c
    → (packet : Bytes) × (build_authenticated_packet c passwd msg ≡ ok packet)
unfolding build_authenticated_packet hmac_sha256
build-AcceptsKeys c passwd msg keys =
    let (mac, e) = keys.every_key passwd in
    (codes "AUTH " ++ (c.encode (mac msg) ++ newline ∷ msg), ground arith)

-- A connection that a session takes is pending there.
pub add_pending_connection-Runs :
    (c : Crypto) (now : ℕ) (draws : List ℕ) (s : Client)
    → AcceptsKeys c
    → IsDraws draws
    → (s' : Client) × (id : Bytes) × (add_pending_connection c now draws s ≡ some s')
      × (rand_str draws ≡ some id)
      × Waits id s'
      × (s'.connected ≡ s.connected)
unfolding add_pending_connection connect_build
add_pending_connection-Runs c now draws s keys h =
    let (id, e, good) = rand_str-IsConnId draws h.0 h.1 in
    let (packet, built) =
      build-AcceptsKeys c s.option.passwd (codes "NEW CONNECTION " ++ id) keys in
    let s' = record s {
      pending_connections =
          insert id (record { created = now; conn_id = id }) s.pending_connections;
      session = feed_ws now (text packet) s.session;
    } in
    (
      s',
      id,
      rw (e, built) refl,
      e,
      contains_key-insert id id (record { created = now; conn_id = id }) s.pending_connections
          ∙ rw (beq_refl id) refl,
      refl,
    )

-- A UDP client that a session takes has its connection there at once, on the client's own socket.
pub add_udp_connection-Runs :
    (c : Crypto) (now : ℕ) (draws : List ℕ) (addr : SocketAddr) (s : Client)
    → AcceptsKeys c
    → IsDraws draws
    → (s' : Client) × (id : Bytes) × (add_udp_connection c now draws addr s ≡ some s')
      × (rand_str draws ≡ some id)
      × Visits addr id s'
      × (s'.connected ≡ s.connected)
unfolding add_udp_connection udp_connect_build
add_udp_connection-Runs c now draws addr s keys h =
    let (id, e, good) = rand_str-IsConnId draws h.0 h.1 in
    let (packet, built) =
      build-AcceptsKeys c s.option.passwd (codes "NEW UDP CONNECTION " ++ id) keys in
    let conn : UdpConnection = record { handle = 0; addr = some addr } in
    let there = with_udp (insert id conn s.session.core.udp_connections) s.session in
    (
      with_session (feed_ws now (text packet) there) s,
      id,
      rw (e, built) refl,
      e,
      ap (get id) (udp_connections-feed_ws now (text packet) there)
          ∙ get-insert id id conn s.session.core.udp_connections
          ∙ rw (beq_refl id) refl,
      refl,
    )
