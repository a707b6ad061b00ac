-- ===== src/Udp/Datagram/Refines.antt =====
-- `UdpDatagram::poll` of src/protocol/udp.rs as a whole, against what it does for each peer.
use tws_rust.Prelude.{ℕ, Bool, if◌then◌else◌, Option, none, some}
use tws_rust.Prelude.Equality.{nat_key}
use tws_rust.Text.Bytes.{Bytes}
use tws_rust.Net.Addr.{SocketAddr, addr_key, addr_eq}
use tws_rust.Udp.Stream.{UdpState, write}
use tws_rust.Udp.Stream
use tws_rust.Udp.Datagram.{Datagram, Received, nothing, broken, packet, accept}

-- What is read does for a peer: its own packet reaches its stream, which is a new one with the next number if
-- it has none. A paused socket drops the packets of the peers that it knows.
abbrev pub given : ℕ → Bytes → Bool → ℕ → UdpState → Option (ℕ × UdpState) → Option (ℕ × UdpState)
given now bytes paused number new none = some (number, new)
given now bytes paused number new (some (id, s)) =
    some (id, if paused then s else accept now bytes s)

abbrev pub arrived :
    ℕ → Received → Datagram → SocketAddr → Option (ℕ × UdpState) → Option (ℕ × UdpState)
arrived now nothing d addr o = o
arrived now broken d addr o = o
arrived now (packet bytes sender) d addr o =
    if addr_eq sender addr
    then given now bytes d.handle.paused d.counter
        (write now bytes (Stream.new now sender d.timeout)) o
    else o
