-- ===== src/Tunnel/Connecting.antt =====
-- A connection from its request on the client (src/protocol/client.rs) over the server's answer
-- (src/protocol/server.rs) to its place in the client's table.
use tws_rust.Prelude.{
  ℕ, List, [], ◌∷◌, ◌++◌, Bool, true, false, ◌||◌, some, ok, ◌≡◌, refl, sym, ap, ◌∙◌, if◌then◌else◌,
  arith, inl, inr, Bool-cases,
}
use tws_rust.Prelude.Int.{ℤ}
use tws_rust.Prelude.Equality.{beq_refl}
use tws_rust.Text.Bytes.{Bytes, bytes_key, bytes_eq, bytes_eq→eq}
use tws_rust.Net.Addr.{SocketAddr}
use tws_rust.Map.{contains_key}
use tws_rust.Util.RandStr.{rand_str}
use tws_rust.Protocol.Auth.{Crypto}
use tws_rust.Protocol.Auth.RoundTrip.{TextCodes}
use tws_rust.Protocol.ConnId.{IsConnId}
use tws_rust.Protocol.Connect.{connect_build}
use tws_rust.Protocol.State.{connect_state_build}
use tws_rust.Protocol.Packet.{Packet, connection_state}
use tws_rust.Protocol.Exchange.{parse_packet-connect_build, parse_packet-connect_state_build}
use tws_rust.Session.Message.{text}
use tws_rust.Server.State.{Server}
use tws_rust.Server.Handlers.{on_connected, finish_connect, take_task}
use tws_rust.Server.Handlers as ServerHandlers
use tws_rust.Client.State.{Client, add_pending_connection}
use tws_rust.Client.Handlers as ClientHandlers
use tws_rust.Client.Safety.{phase, move, phase-on_packet}
use tws_rust.Tunnel.Steps.{answer, requested, spawned, answered}

-- The answer moves the connection, and no other, on the client.
abbrev pub Moved : Bytes → Bool → Client → Client → Type 0
Moved id success s s' =
    (j : Bytes) → phase j s' ≡ (if bytes_eq id j then (success, false) else phase j s)

moved :
    (c : Crypto) (time : ℤ) (now : ℕ) (success : Bool) (id : Bytes) (s : Client)
    → IsConnId id
    → phase id s ≡ (false, true)
    → (s' : Client) × (ClientHandlers.on_message c time now
          (text (connect_state_build id (answer success)))
          s
        ≡ some s')
      × Moved id success s s'
unfolding ClientHandlers.on_message
moved c time now success id s valid before =
    let told = connection_state id (answer success) in
    let read : ClientHandlers.on_message c time now (text (connect_state_build id (answer success)))
          s
        ≡ ClientHandlers.on_packet now told s =
      ap (λ (p : Packet). ClientHandlers.on_packet now p s)
        (parse_packet-connect_state_build c s.option.passwd time id (answer success) valid) in
    let (s', e, ph) = phase-on_packet now id told s in
    (
      s',
      read ∙ e,
      (λ j.
          let (s'', e', ph') = phase-on_packet now j told s in
          let one : s'' ≡ s' = ground arith in
          let was : bytes_eq id j ≡ true → phase j s ≡ (false, true) =
            λ same. ap (λ k. phase k s) (sym (bytes_eq→eq id j same)) ∙ before in
          ap (phase j) (sym one) ∙ ph' ∙ elim (Bool-cases (bytes_eq id j)) [
            | inl same ↦ rw (same, was same) (move_answer success)
            | inr other ↦ rw other refl
          ]),
    )
  where
    move_answer : (b : Bool) → move (answer b) (false, true) ≡ (b, false)
    move_answer true = refl
    move_answer false = refl

-- What a connection that the client requests becomes, when both sides are up and have one password, and the
-- identifier that is drawn is not that of an active connection. The request and the answer are the last messages
-- of their writers' queues; each side reads the other's message as it is meant, and nothing panics. If the server
-- can connect to the remote, both sides then have the connection; otherwise the client has given it up. All other
-- connections of the client are as they were before.
pub add_pending_connection-answered :
    (c : Crypto) (time : ℤ) (now now' : ℕ) (bound success : Bool) (draws : List ℕ)
    (id packet : Bytes) (addr client : SocketAddr) (s : Client) (t : Server)
    → TextCodes c
    → rand_str draws ≡ some id
    → IsConnId id
    → connect_build c s.option.passwd id ≡ ok packet
    → t.option.passwd ≡ s.option.passwd
    → s.session.writer.finished ≡ false
    → t.session.writer.finished ≡ false
    → t.handshaked ≡ true
    → t.remote ≡ some addr
    → t.client ≡ some client
    → contains_key id s.session.core.connections ≡ false
    → (s' : Client) × (s'' : Client) × (t' : Server) × (t'' : Server) × (add_pending_connection c
          now draws s
        ≡ some s')
      × (s'.session.writer.queue ≡ s.session.writer.queue ++ text packet ∷ [])
      × (ServerHandlers.on_message c time now' bound (text packet) t ≡ some t')
      × (on_connected now' id success t' ≡ some t'')
      × (t''.session.writer.queue
          ≡ t.session.writer.queue ++ text (connect_state_build id (answer success)) ∷ [])
      × (ClientHandlers.on_message c time now (text (connect_state_build id (answer success))) s'
          ≡ some s'')
      × (contains_key id t''.session.core.connections
          ≡ success || contains_key id t.session.core.connections)
      × Moved id success s s''
add_pending_connection-answered c time now now' bound success draws id packet addr client s t
      codes_text drawn valid built shared live live' opened r cl fresh =
    let (s', e, q, same, before) = requested c now draws id packet s drawn built live in
    let parsed =
      parse_packet-connect_build c codes_text t.option.passwd time id valid (rw shared built) in
    let t' = record t { connecting = id ∷ t.connecting } in
    let (t'', e', q', there) = answered now' success id addr client t r cl live' in
    let waiting : phase id s' ≡ (false, true) = before id ∙ rw (fresh, beq_refl id) refl in
    let (s'', e'', others) = moved c time now success id s' valid waiting in
    (
      s',
      s'',
      t',
      t'',
      e,
      q,
      spawned c time now' bound id packet addr t parsed opened r,
      e',
      q',
      e'',
      there,
      (λ j. others j ∙ elim (Bool-cases (bytes_eq id j)) [
        | inl same ↦ rw same refl
        | inr other ↦ rw other (before j ∙ rw other refl)
      ]),
    )
