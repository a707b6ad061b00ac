-- ===== src/Server/Accept.antt =====
-- `TwsServer::run` of src/protocol/server.rs: the connections that come in, and the address of each client.
use tws_rust.Prelude.{
  ℕ, [], ◌∷◌, Bool, true, false, if◌then◌else◌, ◌==◌, Option, none, some, ◌≡◌, refl, ap, ◌∙◌,
}
use tws_rust.Text.Bytes.{Bytes}
use tws_rust.Net.Addr.{SocketAddr, IpAddr, v4, v6, segments_eq, InRange}
use tws_rust.Net.Read.{parse_ip}
use tws_rust.Net.Show.{show_v4}
use tws_rust.Net.Numbers.{parse_ip-show_v4}

unfoldable pub is_loopback : IpAddr → Bool
unfolding segments_eq
is_loopback (v4 a b c d) = a == 127
is_loopback (v6 segments) = segments_eq segments (0 ∷ 0 ∷ 0 ∷ 0 ∷ 0 ∷ 0 ∷ 0 ∷ 1 ∷ [])

-- A request for an upgrade: the address of its stream, if it can be told, the address it came in with, and the
-- `X-Real-IP` header.
pub record Upgrade : Type 0 where
  pub peer_addr : Option SocketAddr
  pub incoming_addr : SocketAddr
  pub real_ip : Option Bytes

abbrev pub peer_of : Option SocketAddr → SocketAddr → SocketAddr
peer_of none addr = addr
peer_of (some peer) addr = peer

-- `headers.get::<XRealIp>().ok_or(()).and_then(|x| x.parse())`
abbrev pub read_ip : Option Bytes → Option IpAddr
read_ip none = none
read_ip (some text) = parse_ip text

abbrev pub set_ip : Option IpAddr → SocketAddr → SocketAddr
set_ip none addr = addr
set_ip (some ip) addr = record addr { ip = ip }

unfoldable pub client_addr : Upgrade → SocketAddr
unfolding is_loopback
client_addr u =
    let addr = peer_of u.peer_addr u.incoming_addr in
    if is_loopback addr.ip then set_ip (read_ip u.real_ip) addr else addr

-- A request, with another header.
abbrev pub with_header : Option Bytes → Upgrade → Upgrade
with_header text u = record u { real_ip = text }

-- Whom the server takes for the client of a request. The port is that of the stream. From outside the machine the
-- address is that of the stream too, whatever the header says, so that no one there can pretend to have another. From
-- the machine itself, where the proxy is, it is the IPv4 address that the header gives; and with no header, it is that
-- of the stream from everywhere.
pub client_addr-with_header :
    (u : Upgrade) (text : Option Bytes) (a b c d : ℕ)
    → InRange (v4 a b c d)
    → let peer = peer_of u.peer_addr u.incoming_addr in
      ((client_addr (with_header text u)).port ≡ peer.port)
      × ((client_addr (with_header text u)).ip
          ≡ (if is_loopback peer.ip then (client_addr (with_header text u)).ip else peer.ip))
      × ((client_addr (with_header (some (show_v4 a b c d)) u)).ip
          ≡ (if is_loopback peer.ip then v4 a b c d else peer.ip))
      × (client_addr (with_header none u) ≡ peer)
unfolding client_addr
client_addr-with_header u text a b c d h =
    let peer = peer_of u.peer_addr u.incoming_addr in
    let near = is_loopback peer.ip in
    (
      port_kept near (read_ip text) peer,
      outside near (read_ip text) peer,
      ap (λ o. (if near then set_ip o peer else peer).ip) (parse_ip-show_v4 a b c d h)
          ∙ inside near (v4 a b c d) peer,
      nobody near peer,
    )
  where
    port_kept :
        (near : Bool) (o : Option IpAddr) (addr : SocketAddr)
        → (if near then set_ip o addr else addr).port ≡ addr.port
    port_kept true none addr = refl
    port_kept true (some ip) addr = refl
    port_kept false o addr = refl

    outside :
        (near : Bool) (o : Option IpAddr) (addr : SocketAddr)
        → (if near then set_ip o addr else addr).ip
          ≡ (if near then (if near then set_ip o addr else addr).ip else addr.ip)
    outside true o addr = refl
    outside false o addr = refl

    inside :
        (near : Bool) (ip : IpAddr) (addr : SocketAddr)
        → (if near then set_ip (some ip) addr else addr).ip ≡ (if near then ip else addr.ip)
    inside true ip addr = refl
    inside false ip addr = refl

    nobody : (near : Bool) (addr : SocketAddr) → (if near then set_ip none addr else addr) ≡ addr
    nobody true addr = refl
    nobody false addr = refl
