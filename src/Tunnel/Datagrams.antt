-- ===== src/Tunnel/Datagrams.antt =====
-- UDP packets through the tunnel (src/protocol/client.rs, src/protocol/server.rs, src/protocol/udp.rs).
use tws_rust.Prelude.{
  ℕ, ◌==◌, ◌≤◌, List, [], ◌∷◌, ◌++◌, Bool, true, false, Option, none, some, length, ◌≡◌, ◌≢◌, ap,
  ◌∙◌, if_true, arith, inl, inr, Bool-cases,
}
use tws_rust.Prelude.Int.{ℤ}
use tws_rust.Prelude.Equality.{nat_key}
use tws_rust.Text.Bytes.{Bytes, bytes_key}
use tws_rust.Net.Addr.{SocketAddr}
use tws_rust.Map.{get}
use tws_rust.Protocol.Auth.{Crypto}
use tws_rust.Protocol.ConnId.{IsConnId}
use tws_rust.Protocol.Data.{udp_data_build}
use tws_rust.Protocol.Packet.{Packet}
use tws_rust.Protocol.Exchange.{parse_packet-udp_data_build}
use tws_rust.Session.Message.{binary}
use tws_rust.Session.ReadThrottle.{Core, UdpConnection, modify_handle}
use tws_rust.Session.Service.{Session, forward_udp}
use tws_rust.Udp.Handle.{Handle, udp_queue_len, enqueue, send, send_to}
use tws_rust.Server.State.{Server, check_handshaked, send_udp, on_udp_data}
use tws_rust.Server.State as ServerState
use tws_rust.Server.Handlers.{on_remote_udp_data}
use tws_rust.Server.Handlers as ServerHandlers
use tws_rust.Client.State.{Client, with_session, send_at, send_udp_to}
use tws_rust.Client.State as ClientState
use tws_rust.Client.Handlers.{on_local_udp_data}
use tws_rust.Client.Handlers as ClientHandlers
use tws_rust.Session.Writer.{queue-feed_ws}

get-modify_handle :
    (n : ℕ) (f : Handle → Handle) (hs : List (ℕ × Handle)) (h : Handle)
    → get n hs ≡ some h
    → get n (modify_handle n f hs) ≡ some (f h)
unfolding get modify_handle
get-modify_handle n f [] h e = absurd (ground arith)
get-modify_handle n f ((m, g) ∷ rest) h e = elim (Bool-cases (m == n)) [
  | inl same ↦ let is : g ≡ h = ground arith in ground (arith, ap f is)
  | inr other ↦ ground (arith, get-modify_handle n f rest h)
]

buf-enqueue :
    (target : Option SocketAddr) (bytes : Bytes) (h : Handle)
    → length h.buf ≤ udp_queue_len
    → (enqueue target bytes h).buf ≡ h.buf ++ (target, bytes) ∷ []
unfolding enqueue
buf-enqueue target bytes h room = ground arith

-- The packet stands last in the send queue of a socket.
abbrev pub Queued : ℕ → Option SocketAddr → Bytes → Handle → Session → Type 0
Queued n target bytes h s =
    (h' : Handle) × (get n s.core.handles ≡ some h') × (h'.buf ≡ h.buf ++ (target, bytes) ∷ [])

pub server_queues :
    (c : Crypto) (time : ℤ) (now : ℕ) (bound : Bool) (id bytes : Bytes) (t : Server)
    (u : UdpConnection) (h : Handle)
    → IsConnId id
    → bytes ≢ []
    → t.handshaked ≡ true
    → get id t.session.core.udp_connections ≡ some u
    → get u.handle t.session.core.handles ≡ some h
    → length h.buf ≤ udp_queue_len
    → (t' : Server) × (ServerHandlers.on_message c time now bound
          (binary (udp_data_build id bytes))
          t
        ≡ some t')
      × Queued u.handle none bytes h t'.session
unfolding ServerHandlers.on_message ServerHandlers.on_packet on_udp_data check_handshaked send
server_queues c time now bound id bytes t u h valid some_bytes opened e there room =
    let core = t.session.core in
    let after = λ (o : Option UdpConnection).
      ServerState.with_session (record t.session { core = send_udp bytes o core }) t in
    (
      after (some u),
      ap (λ (p : Packet). ServerHandlers.on_packet now bound p t)
            (parse_packet-udp_data_build c t.option.passwd time id bytes valid some_bytes)
          ∙ if_true t.handshaked _ _ opened
          ∙ ap (λ o. some (after o)) e,
      (
        enqueue none bytes h,
        get-modify_handle u.handle (send bytes) core.handles h there,
        buf-enqueue none bytes h room,
      ),
    )

client_queues :
    (c : Crypto) (time : ℤ) (now : ℕ) (id bytes : Bytes) (addr : SocketAddr) (s : Client)
    (u : UdpConnection) (h : Handle)
    → IsConnId id
    → bytes ≢ []
    → get id s.session.core.udp_connections ≡ some u
    → u.addr ≡ some addr
    → get u.handle s.session.core.handles ≡ some h
    → length h.buf ≤ udp_queue_len
    → (s' : Client) × (ClientHandlers.on_message c time now (binary (udp_data_build id bytes)) s
        ≡ some s')
      × Queued u.handle (some addr) bytes h s'.session
unfolding ClientHandlers.on_message ClientHandlers.on_packet ClientState.on_udp_data send_to
client_queues c time now id bytes addr s u h valid some_bytes e own there room =
    let core = s.session.core in
    let after = λ (k : Core). with_session (record s.session { core = k }) s in
    (
      after (send_at bytes u.handle (some addr) core),
      ap (λ (p : Packet). ClientHandlers.on_packet now p s)
            (parse_packet-udp_data_build c s.option.passwd time id bytes valid some_bytes)
          ∙ ap (λ o. some (after (send_udp_to bytes o core))) e
          ∙ ap (λ a. some (after (send_at bytes u.handle a core))) own,
      (
        enqueue (some addr) bytes h,
        get-modify_handle u.handle (send_to addr bytes) core.handles h there,
        buf-enqueue (some addr) bytes h room,
      ),
    )

queue-forward_udp :
    (now : ℕ) (id bytes : Bytes) (s : Session)
    → s.writer.finished ≡ false
    → (forward_udp now id bytes s).writer.queue
      ≡ s.writer.queue ++ binary (udp_data_build id bytes) ∷ []
unfolding forward_udp
queue-forward_udp now id bytes s live = queue-feed_ws now (binary (udp_data_build id bytes)) s live

-- A UDP packet with some data goes through the tunnel both ways, for a connection that both sides have and while the
-- sockets' send queues have room. What comes from a local peer is the last message of the client's queue, and when
-- the server gets this message, the packet stands, as it is, last in the send queue of the connection's own socket.
-- What comes from the remote is the last message of the server's queue, and when the client gets it, the packet
-- stands last in the send queue of the client's socket, for the peer that the connection is of.
pub on_local_udp_data-delivered :
    (c : Crypto) (time : ℤ) (now now' : ℕ) (bound : Bool) (id bytes : Bytes) (addr : SocketAddr)
    (s : Client) (t : Server) (near far : UdpConnection) (h h' : Handle)
    → IsConnId id
    → bytes ≢ []
    → s.session.writer.finished ≡ false
    → t.session.writer.finished ≡ false
    → t.handshaked ≡ true
    → get id s.session.core.udp_connections ≡ some near
    → near.addr ≡ some addr
    → get near.handle s.session.core.handles ≡ some h
    → length h.buf ≤ udp_queue_len
    → get id t.session.core.udp_connections ≡ some far
    → get far.handle t.session.core.handles ≡ some h'
    → length h'.buf ≤ udp_queue_len
    → (((on_local_udp_data now id bytes s).session.writer.queue
          ≡ s.session.writer.queue ++ binary (udp_data_build id bytes) ∷ [])
        × ((t' : Server) × (ServerHandlers.on_message c time now' bound
                (binary (udp_data_build id bytes))
                t
              ≡ some t')
            × Queued far.handle none bytes h' t'.session))
      × (((on_remote_udp_data now' id bytes t).session.writer.queue
            ≡ t.session.writer.queue ++ binary (udp_data_build id bytes) ∷ [])
          × ((s' : Client) × (ClientHandlers.on_message c time now
                  (binary (udp_data_build id bytes))
                  s
                ≡ some s')
              × Queued near.handle (some addr) bytes h s'.session))
unfolding on_local_udp_data on_remote_udp_data
on_local_udp_data-delivered c time now now' bound id bytes addr s t near far h h' valid some_bytes
      live live' opened e own there room e' there' room' =
    (
      (
        queue-forward_udp now id bytes s.session live,
        server_queues c time now' bound id bytes t far h' valid some_bytes opened e' there' room',
      ),
      (
        queue-forward_udp now' id bytes t.session live',
        client_queues c time now id bytes addr s near h valid some_bytes e own there room,
      ),
    )
