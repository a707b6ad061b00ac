-- ===== src/Tunnel/Data.antt =====
-- Bytes that one side reads from its TCP connection, until they wait to be written to the TCP connection of the
-- other side (src/protocol/client.rs, src/protocol/server.rs).
use tws_rust.Prelude.{
  ℕ, [], ◌∷◌, ◌++◌, Bool, true, false, some, length, ◌≡◌, ◌≢◌, ap, if◌then◌else◌,
}
use tws_rust.Prelude.Int.{ℤ}
use tws_rust.Text.Bytes.{Bytes, bytes_key, bytes_eq}
use tws_rust.Map.{get, modify}
use tws_rust.Protocol.Auth.{Crypto}
use tws_rust.Protocol.ConnId.{IsConnId}
use tws_rust.Protocol.Data.{data_build}
use tws_rust.Protocol.Packet.{Packet}
use tws_rust.Protocol.Exchange.{parse_packet-data_build}
use tws_rust.Session.Message.{binary}
use tws_rust.Session.Connection.{Connection}
use tws_rust.Session.Connection
use tws_rust.Session.Service.{Session, feed_tcp, forward_tcp, with_connections}
use tws_rust.Session.Delivery.{queue_of, queue_of-feed_tcp}
use tws_rust.Server.State.{Server}
use tws_rust.Server.Handlers.{on_remote_data}
use tws_rust.Server.Handlers as ServerHandlers
use tws_rust.Server.Delivery.{queue_of-on_message}
use tws_rust.Client.State.{Client, with_session, on_data}
use tws_rust.Client.Handlers.{on_local_data}
use tws_rust.Client.Handlers as ClientHandlers
use tws_rust.Session.Writer.{queue-feed_ws}

-- The message that carries the bytes stands last in the queue of the side that has read them.
queue-forward_tcp :
    (now : ℕ) (conn_id bytes : Bytes) (s : Session)
    → s.writer.finished ≡ false
    → (forward_tcp now conn_id bytes s).writer.queue
      ≡ s.writer.queue ++ binary (data_build conn_id bytes) ∷ []
unfolding forward_tcp
queue-forward_tcp now conn_id bytes s live =
    queue-feed_ws now (binary (data_build conn_id bytes))
      (with_connections (modify conn_id (Connection.on_read now (length bytes)) s.core.connections)
        s)
      live

-- The bytes have been put at the end of what waits to be written to one connection, and to no other.
abbrev pub Appended : Bytes → Bytes → Connection → Session → Session → Type 0
Appended conn_id bytes conn s s' =
    (j : Bytes)
    → queue_of j s'.core.connections ≡ (
        if bytes_eq conn_id j
        then some (conn.writer.queue ++ bytes ∷ [])
        else queue_of j s.core.connections)

queue_of-client :
    (c : Crypto) (time : ℤ) (now : ℕ) (conn_id bytes : Bytes) (s : Client) (conn : Connection)
    → IsConnId conn_id
    → bytes ≢ []
    → get conn_id s.session.core.connections ≡ some conn
    → conn.writer.finished ≡ false
    → (s' : Client) × (ClientHandlers.on_message c time now (binary (data_build conn_id bytes)) s
        ≡ some s')
      × Appended conn_id bytes conn s.session s'.session
unfolding ClientHandlers.on_message ClientHandlers.on_packet on_data
queue_of-client c time now conn_id bytes s conn valid some_bytes e live = (
  with_session (feed_tcp now conn_id bytes s.session) s,
  ap (λ (p : Packet). ClientHandlers.on_packet now p s)
      (parse_packet-data_build c s.option.passwd time conn_id bytes valid some_bytes),
  (λ j. queue_of-feed_tcp now conn_id bytes s.session conn j e live),
)

-- Through the tunnel, for a connection that both sides have: what the client reads is the last message of its
-- queue, and when the server gets this message the bytes stand, as they are, at the end of what waits to be written
-- to the remote, with nothing changed for any other connection; and the same holds the other way round.
pub on_local_data-delivered :
    (c : Crypto) (time : ℤ) (now now' : ℕ) (bound : Bool) (conn_id bytes : Bytes) (s : Client)
    (t : Server) (near far : Connection)
    → IsConnId conn_id
    → bytes ≢ []
    → s.session.writer.finished ≡ false
    → t.session.writer.finished ≡ false
    → t.handshaked ≡ true
    → get conn_id s.session.core.connections ≡ some near
    → get conn_id t.session.core.connections ≡ some far
    → near.writer.finished ≡ false
    → far.writer.finished ≡ false
    → (((on_local_data now conn_id bytes s).session.writer.queue
          ≡ s.session.writer.queue ++ binary (data_build conn_id bytes) ∷ [])
        × ((t' : Server) × (ServerHandlers.on_message c time now' bound
                (binary (data_build conn_id bytes))
                t
              ≡ some t')
            × Appended conn_id bytes far t.session t'.session))
      × (((on_remote_data now' conn_id bytes t).session.writer.queue
            ≡ t.session.writer.queue ++ binary (data_build conn_id bytes) ∷ [])
          × ((s' : Client) × (ClientHandlers.on_message c time now
                  (binary (data_build conn_id bytes))
                  s
                ≡ some s')
              × Appended conn_id bytes near s.session s'.session))
unfolding on_local_data on_remote_data
on_local_data-delivered c time now now' bound conn_id bytes s t near far valid some_bytes live live'
      opened e e' writes writes' =
    (
      (
        queue-forward_tcp now conn_id bytes s.session live,
        queue_of-on_message c time now' bound conn_id bytes t far opened valid some_bytes e'
            writes',
      ),
      (
        queue-forward_tcp now' conn_id bytes t.session live',
        queue_of-client c time now conn_id bytes s near valid some_bytes e writes,
      ),
    )
