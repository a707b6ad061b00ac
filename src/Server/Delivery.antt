-- ===== src/Server/Delivery.antt =====
-- Data from the client to a remote, through the packet format, the server's handlers and the connection's
-- writer (src/protocol/protocol.rs, src/protocol/server.rs).
use tws_rust.Prelude.{
  ℕ, [], ◌∷◌, ◌++◌, Bool, true, false, some, ◌≡◌, ◌≢◌, ap, ◌∙◌, if◌then◌else◌, if_true,
}
use tws_rust.Prelude.Int.{ℤ}
use tws_rust.Text.Bytes.{Bytes, bytes_eq}
use tws_rust.Text.Bytes.{bytes_key}
use tws_rust.Map.{get}
use tws_rust.Protocol.Auth.{Crypto}
use tws_rust.Protocol.Packet.{Packet}
use tws_rust.Protocol.ConnId.{IsConnId}
use tws_rust.Protocol.Data.{data_build}
use tws_rust.Protocol.Exchange.{parse_packet-data_build}
use tws_rust.Session.Message.{binary}
use tws_rust.Session.Connection.{Connection}
use tws_rust.Session.Service.{feed_tcp}
use tws_rust.Session.Delivery.{queue_of, queue_of-feed_tcp}
use tws_rust.Server.State.{Server, with_session, check_handshaked, on_data}
use tws_rust.Server.Handlers.{on_packet, on_message}

-- After the handshake, the bytes that a client packs for an open connection are put, as they are, at the end
-- of what waits to be written to the remote, the bytes of all other connections stay as they are, and
-- nothing panics.
pub queue_of-on_message :
    (c : Crypto) (time : ℤ) (now : ℕ) (bound : Bool) (conn_id bytes : Bytes) (s : Server)
    (conn : Connection)
    → s.handshaked ≡ true
    → IsConnId conn_id
    → bytes ≢ []
    → get conn_id s.session.core.connections ≡ some conn
    → conn.writer.finished ≡ false
    → (s' : Server) × (on_message c time now bound (binary (data_build conn_id bytes)) s ≡ some s')
      × ((j : Bytes)
          → queue_of j s'.session.core.connections ≡ (
              if bytes_eq conn_id j
              then some (conn.writer.queue ++ bytes ∷ [])
              else queue_of j s.session.core.connections))
unfolding on_message on_packet on_data check_handshaked
queue_of-on_message c time now bound conn_id bytes s conn opened valid some_bytes e live =
    let s' = with_session (feed_tcp now conn_id bytes s.session) s in
    (
      s',
      ap (λ (p : Packet). on_packet now bound p s)
            (parse_packet-data_build c s.option.passwd time conn_id bytes valid some_bytes)
          ∙ if_true s.handshaked (some s') _ opened,
      λ j. queue_of-feed_tcp now conn_id bytes s.session conn j e live,
    )
