-- ===== src/Tests/Tunnel.antt =====
-- A client and a server together on concrete inputs.
use tws_rust.Prelude.{ℕ, List, [], ◌∷◌, ◌++◌, ◌||◌, true, false, none, some, ◌≡◌, refl, arith}
use tws_rust.Prelude.Int.{pos}
use tws_rust.Text.Bytes.{bytes_key, codes, bytes_eq}
use tws_rust.Net.Addr.{SocketAddr, v4_addr}
use tws_rust.Map.{contains_key, get}
use tws_rust.Util.RandStr.{rand_str}
use tws_rust.Util.SharedStream
use tws_rust.Protocol.State.{connect_state_build}
use tws_rust.Protocol.Data.{data_build, udp_data_build}
use tws_rust.Session.Message.{text, binary}
use tws_rust.Session.Connection.{Connection, create}
use tws_rust.Session.WriteThrottle.{WriteThrottle}
use tws_rust.Protocol.Packet.{pause}
use tws_rust.Util.Throttling
use tws_rust.Udp.Handle
use tws_rust.Udp.Handle.{Handle}
use tws_rust.Session.ReadThrottle.{UdpConnection}
use tws_rust.Server.State.{Server, empty_core}
use tws_rust.Server.State as ServerState
use tws_rust.Server.Handlers.{on_connected, on_remote_data, on_remote_udp_data}
use tws_rust.Server.Handlers as ServerHandlers
use tws_rust.Client.State.{Client, add_pending_connection, add_udp_connection}
use tws_rust.Client.State as ClientState
use tws_rust.Client.Handlers.{on_local_data, on_local_udp_data}
use tws_rust.Client.Handlers as ClientHandlers
use tws_rust.Tunnel.Steps.{answer}
use tws_rust.Tunnel.Connecting.{Moved, add_pending_connection-answered}
use tws_rust.Tunnel.Pressure.{on_message-pressed}
use tws_rust.Tunnel.Datagrams.{Queued, on_local_udp_data-delivered}
use tws_rust.Tunnel.Data.{Appended, on_local_data-delivered}
use tws_rust.Prelude.Equality.{nat_key}
use tws_rust.Tests.Protocol.{id-IsConnId, connect_packet, connect_built, udp_packet, udp_built}
use tws_rust.Tunnel.Visitors.{add_udp_connection-followed}
use tws_rust.Client.Request.{Visits}
use tws_rust.Tests.Toy.{toy, toy_text, passwd, id}

abbrev target : SocketAddr
target = v4_addr 192 168 1 1 443

abbrev visitor : SocketAddr
visitor = v4_addr 10 0 0 7 5000

abbrev client : Client
client = ClientState.new 0 (record { passwd = passwd; remote = target; timeout = 5000 })

abbrev host : Server
host =
    record (ServerState.new 0 (record { passwd = passwd; no_udp = false; accept_remotes = [] })
      visitor) { remote = some target; handshaked = true }

abbrev draws : List ℕ
draws = 49 ∷ 13 ∷ 9 ∷ 30 ∷ 0 ∷ 53 ∷ []

drawn : rand_str draws ≡ some id
unfolding rand_str
drawn = refl

connecting_example :
    (s' : Client) × (s'' : Client) × (t' : Server) × (t'' : Server) × (add_pending_connection toy 1
        draws client
      ≡ some s')
    × (s'.session.writer.queue ≡ client.session.writer.queue ++ text connect_packet ∷ [])
    × (ServerHandlers.on_message toy (pos 9) 2 true (text connect_packet) host ≡ some t')
    × (on_connected 2 id true t' ≡ some t'')
    × (t''.session.writer.queue
        ≡ host.session.writer.queue ++ text (connect_state_build id (answer true)) ∷ [])
    × (ClientHandlers.on_message toy (pos 9) 1 (text (connect_state_build id (answer true))) s'
        ≡ some s'')
    × (contains_key id t''.session.core.connections
        ≡ true || contains_key id host.session.core.connections)
    × Moved id true client s''
unfolding contains_key ClientState.new ServerState.new SharedStream.new SharedStream.run
    SharedStream.clone
connecting_example =
    add_pending_connection-answered toy (pos 9) 1 2 true true draws id connect_packet target visitor
      client host toy_text drawn id-IsConnId connect_built refl refl refl refl refl refl refl

abbrev near : Client
near = record client {
  session = record client.session {
    core = record client.session.core { connections = (id, create id 3) ∷ [] };
  };
}

abbrev far : Server
far = record host {
  session = record host.session {
    core = record host.session.core { connections = (id, create id 4) ∷ [] };
  };
}

delivered_example :
    (((on_local_data 5 id (codes "HelloWorld") near).session.writer.queue
        ≡ near.session.writer.queue ++ binary (data_build id (codes "HelloWorld")) ∷ [])
      × ((t' : Server) × (ServerHandlers.on_message toy
              (pos 9)
              6
              true
              (binary (data_build id (codes "HelloWorld")))
              far
            ≡ some t')
          × Appended id (codes "HelloWorld") (create id 4) far.session t'.session))
    × (((on_remote_data 6 id (codes "HelloWorld") far).session.writer.queue
          ≡ far.session.writer.queue ++ binary (data_build id (codes "HelloWorld")) ∷ [])
        × ((s' : Client) × (ClientHandlers.on_message toy
                (pos 9)
                5
                (binary (data_build id (codes "HelloWorld")))
                near
              ≡ some s')
            × Appended id (codes "HelloWorld") (create id 3) near.session s'.session))
unfolding get bytes_eq create ClientState.new ServerState.new SharedStream.new SharedStream.run
    SharedStream.clone
delivered_example =
    on_local_data-delivered toy (pos 9) 5 6 true id (codes "HelloWorld") near far (create id 3)
      (create id 4) id-IsConnId (λ e. cc) refl refl refl refl refl refl refl

abbrev filled : Connection
unfolding create
filled = record (create id 4) {
  writer = record (create id 4).writer { queue = codes "a" ∷ codes "b" ∷ codes "c" ∷ [] };
}

abbrev crowded : Server
crowded = record host {
  session = record host.session {
    core = record host.session.core { connections = (id, filled) ∷ [] };
  };
}

abbrev throttle : WriteThrottle
throttle = record { conn_id = id; paused = false; outbox = [] }

pressure_example :
    (t' : Server) × (s' : Client) × (near' : Connection) × (ServerHandlers.on_message toy
        (pos 9)
        6
        true
        (binary (data_build id (codes "d")))
        crowded
      ≡ some t')
    × (t'.session.writer.queue
        ≡ crowded.session.writer.queue ++ text (connect_state_build id pause) ∷ [])
    × (ClientHandlers.on_message toy (pos 9) 5 (text (connect_state_build id pause)) near ≡ some s')
    × (get id s'.session.core.connections ≡ some near')
    × (near'.read_throttler.paused ≡ true)
unfolding get bytes_eq create filled ClientState.new ServerState.new SharedStream.new
    SharedStream.run SharedStream.clone SharedStream.set_throttling_handler Throttling.new
pressure_example =
    on_message-pressed toy (pos 9) 5 6 true id (codes "d") near crowded (create id 3) filled
      throttle id-IsConnId (λ e. cc) refl refl refl refl refl refl refl refl (omega arith) refl refl

abbrev near_udp : Client
near_udp = record client {
  session = record client.session {
    core = record client.session.core {
      udp_connections = (id, record { handle = 0; addr = some visitor }) ∷ [];
    };
  };
}

abbrev far_udp : Server
far_udp = record host {
  session = record host.session {
    core = record host.session.core {
      udp_connections = (id, record { handle = 3; addr = none }) ∷ [];
      handles = (3, Handle.new) ∷ [];
    };
  };
}

datagram_example :
    (((on_local_udp_data 5 id (codes "HelloWorld") near_udp).session.writer.queue
        ≡ near_udp.session.writer.queue ++ binary (udp_data_build id (codes "HelloWorld")) ∷ [])
      × ((t' : Server) × (ServerHandlers.on_message toy
              (pos 9)
              6
              true
              (binary (udp_data_build id (codes "HelloWorld")))
              far_udp
            ≡ some t')
          × Queued 3 none (codes "HelloWorld") Handle.new t'.session))
    × (((on_remote_udp_data 6 id (codes "HelloWorld") far_udp).session.writer.queue
          ≡ far_udp.session.writer.queue ++ binary (udp_data_build id (codes "HelloWorld")) ∷ [])
        × ((s' : Client) × (ClientHandlers.on_message toy
                (pos 9)
                5
                (binary (udp_data_build id (codes "HelloWorld")))
                near_udp
              ≡ some s')
            × Queued 0 (some visitor) (codes "HelloWorld") Handle.new s'.session))
unfolding get bytes_eq Handle.new ClientState.new ServerState.new SharedStream.new SharedStream.run
    SharedStream.clone
datagram_example =
    on_local_udp_data-delivered toy (pos 9) 5 6 true id (codes "HelloWorld") visitor near_udp
      far_udp (record { handle = 0; addr = some visitor }) (record { handle = 3; addr = none })
      Handle.new Handle.new id-IsConnId (λ e. cc) refl refl refl refl refl refl (omega arith) refl
      refl (omega arith)

abbrev peer : SocketAddr
peer = v4_addr 127 0 0 1 40000

visitor_packet_example :
    (s' : Client) × (t' : Server) × (t'' : Server) × (u : UdpConnection) × (h : Handle)
    × (add_udp_connection toy 1 draws peer client ≡ some s')
    × Visits peer id s'
    × ((on_local_udp_data 1 id (codes "a") s').session.writer.queue
        ≡ client.session.writer.queue
          ++ text udp_packet ∷ binary (udp_data_build id (codes "a")) ∷ [])
    × (ServerHandlers.on_message toy (pos 9) 2 true (text udp_packet) host ≡ some t')
    × (ServerHandlers.on_message toy (pos 9) 2 true (binary (udp_data_build id (codes "a"))) t'
        ≡ some t'')
    × (get id t'.session.core.udp_connections ≡ some u)
    × (get u.handle t''.session.core.handles ≡ some h)
    × (h.buf ≡ (none, codes "a") ∷ [])
unfolding get ClientState.new ServerState.new SharedStream.new SharedStream.run SharedStream.clone
visitor_packet_example =
    add_udp_connection-followed toy (pos 9) 1 2 draws id udp_packet (codes "a") peer target visitor
      client host toy_text drawn id-IsConnId (λ e. cc) udp_built refl refl refl refl refl refl refl
