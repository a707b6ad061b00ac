-- ===== src/Session/Delivery.antt =====
-- Data of the WebSocket stream reach the connection that they name, and no other (src/protocol/shared.rs).
use tws_rust.Prelude.{
  ℕ, false, List, [], ◌∷◌, ◌++◌, Option, none, some, length, ◌≡◌, refl, sym, ap, ◌∙◌, if◌then◌else◌,
  arith, if_false, Bool-cases, inl, inr,
}
use tws_rust.Text.Bytes.{Bytes, bytes_eq}
use tws_rust.Text.Bytes.{bytes_key}
use tws_rust.Map.{Map, get, modify}
use tws_rust.Prelude.Equality.{beq_comm, beq_trans}
use tws_rust.Util.SharedStream.{SharedState, feed, pushed}
use tws_rust.Util.SharedStream.Fifo.{press_queue}
use tws_rust.Session.Connection.{Connection}
use tws_rust.Session.Connection
use tws_rust.Session.WriteThrottle.{WriteThrottle, write_throttling}
use tws_rust.Session.View.{view-feed_ws_all}
use tws_rust.Session.Service.{
  Session, deliver, fed_writer, rewritten, outbox_of, with_connections, feed_tcp,
}

-- The bytes that wait to be written to a connection.
abbrev pub queue_of : Bytes → Map Bytes Connection → Option (List Bytes)
queue_of id [] = none
queue_of id ((j, c) ∷ m) = if bytes_eq j id then some c.writer.queue else queue_of id m

queue_of-modify :
    (id j : Bytes) (f : Connection → Connection) (m : Map Bytes Connection)
    → ((c : Connection) → (f c).writer.queue ≡ c.writer.queue)
    → queue_of id (modify j f m) ≡ queue_of id m
unfolding modify
queue_of-modify id j f [] keeps = refl
queue_of-modify id j f ((i, c) ∷ m) keeps = ground (arith, keeps c, queue_of-modify id j f m keeps)

queue_of-rewritten :
    (j k : Bytes) (w : SharedState Bytes WriteThrottle) (m : Map Bytes Connection) (c : Connection)
    → get k m ≡ some c
    → queue_of j (modify k (rewritten w) m) ≡ (if bytes_eq k j then some w.queue else queue_of j m)
unfolding modify get
queue_of-rewritten j k w [] c e = absurd (ground arith)
queue_of-rewritten j k w ((i, d) ∷ m) c e = elim (Bool-cases (bytes_eq i k)) [
  | inl same ↦ ground (arith, beq_trans i k j same)
  | inr other ↦
      let later = queue_of-rewritten j k w m c (ground arith) in
      elim (Bool-cases (bytes_eq i j)) [
        | inr far ↦ ground (arith, later)
        | inl near ↦
            let differ : bytes_eq k j ≡ false = beq_comm k j ∙ sym (beq_trans i j k near) ∙ other in
            ground arith
      ]
]

fed_writer_queue :
    (now : ℕ) (bytes : Bytes) (c : Connection)
    → c.writer.finished ≡ false
    → (fed_writer now bytes c).queue ≡ c.writer.queue ++ bytes ∷ []
unfolding fed_writer feed
fed_writer_queue now bytes c live =
    ap (λ (w : SharedState Bytes WriteThrottle). w.queue) (if_false c.writer.finished _ _ live)
    ∙ press_queue length write_throttling now (pushed bytes c.writer)

-- Bytes for a connection whose writer is open are put at the end of what waits for it, and no other
-- connection's bytes change, whatever the back pressure on the WebSocket stream does meanwhile.
pub queue_of-feed_tcp :
    (now : ℕ) (conn_id bytes : Bytes) (s : Session) (c : Connection) (j : Bytes)
    → get conn_id s.core.connections ≡ some c
    → c.writer.finished ≡ false
    → queue_of j (feed_tcp now conn_id bytes s).core.connections ≡ (
        if bytes_eq conn_id j
        then some (c.writer.queue ++ bytes ∷ [])
        else queue_of j s.core.connections)
unfolding feed_tcp deliver Connection.pause Connection.resume
queue_of-feed_tcp now conn_id bytes s c j e live =
    let w = fed_writer now bytes c in
    let s' = with_connections (modify conn_id (rewritten w) s.core.connections) s in
    ap (λ (o : Option Connection). queue_of j (deliver now conn_id bytes o s).core.connections) e
    ∙ view-feed_ws_all (queue_of j) (λ id m. queue_of-modify j id Connection.pause m (λ d. refl))
        (λ id m. queue_of-modify j id Connection.resume m (λ d. refl)) now (outbox_of w.handler) s'
    ∙ queue_of-rewritten j conn_id w s.core.connections c e
    ∙ ap (λ q. if bytes_eq conn_id j then some q else queue_of j s.core.connections)
        (fed_writer_queue now bytes c live)
