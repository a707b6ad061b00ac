-- ===== src/Session/Close.antt =====
-- `close_conn` of src/protocol/server.rs and src/protocol/client.rs on an active connection.
use tws_rust.Prelude.{
  [], ◌∷◌, ◌++◌, ℕ, false, List, Option, none, some, ◌≡◌, refl, ap, ◌∙◌, by_if, by_test, if_false,
  if_true, Bool-cases, if◌then◌else◌, inl, inr, sym,
}
use tws_rust.Text.Bytes.{Bytes, bytes_eq, bytes_eq_refl, bytes_eq→eq}
use tws_rust.Text.Bytes.{bytes_key}
use tws_rust.Map.{contains_key, modify, get}
use tws_rust.Map.Laws.{contains_key-modify, contains_key-remove_key}
use tws_rust.Protocol.Packet.{ConnectionState, closed, is_pause, is_resume}
use tws_rust.Protocol.State.{connect_state_build}
use tws_rust.Session.Connection.{Connection}
use tws_rust.Session.Connection
use tws_rust.Session.Message.{OwnedMessage, text}
use tws_rust.Session.Writer.{queue-feed_ws}
use tws_rust.Session.View.{view-feed_ws, view-feed_ws_all}
use tws_rust.Session.Service.{
  Session, feed_ws, feed_ws_all, deliver, fed_writer, rewritten, outbox_of, with_connections,
  feed_tcp, on_pause_resume, close_conn, drop_connection,
}

-- Feeding the WebSocket writer neither adds nor removes a connection.
pub contains_key-feed_ws :
    (id : Bytes) (now : ℕ) (msg : OwnedMessage) (s : Session)
    → contains_key id (feed_ws now msg s).core.connections ≡ contains_key id s.core.connections
contains_key-feed_ws id now msg s =
    view-feed_ws (contains_key id) (λ j m. contains_key-modify id j Connection.pause m)
      (λ j m. contains_key-modify id j Connection.resume m) now msg s

contains_key-feed_ws_all :
    (id : Bytes) (now : ℕ) (msgs : List OwnedMessage) (s : Session)
    → contains_key id (feed_ws_all now msgs s).core.connections ≡ contains_key id s.core.connections
contains_key-feed_ws_all id now msgs s =
    view-feed_ws_all (contains_key id) (λ j m. contains_key-modify id j Connection.pause m)
      (λ j m. contains_key-modify id j Connection.resume m) now msgs s

contains_key-deliver :
    (id : Bytes) (now : ℕ) (conn_id bytes : Bytes) (c : Option Connection) (s : Session)
    → contains_key id (deliver now conn_id bytes c s).core.connections
      ≡ contains_key id s.core.connections
unfolding deliver
contains_key-deliver id now conn_id bytes none s = refl
contains_key-deliver id now conn_id bytes (some c) s =
    let w = fed_writer now bytes c in
    contains_key-feed_ws_all id now (outbox_of w.handler)
      (with_connections (modify conn_id (rewritten w) s.core.connections) s)
    ∙ contains_key-modify id conn_id (rewritten w) s.core.connections

pub contains_key-feed_tcp :
    (id : Bytes) (now : ℕ) (conn_id bytes : Bytes) (s : Session)
    → contains_key id (feed_tcp now conn_id bytes s).core.connections
      ≡ contains_key id s.core.connections
unfolding feed_tcp
contains_key-feed_tcp id now conn_id bytes s =
    contains_key-deliver id now conn_id bytes (get conn_id s.core.connections) s

pub contains_key-on_pause_resume :
    (id conn_id : Bytes) (state : ConnectionState) (s : Session)
    → contains_key id (on_pause_resume conn_id state s).core.connections
      ≡ contains_key id s.core.connections
unfolding on_pause_resume
contains_key-on_pause_resume id conn_id state s =
    by_if Same (is_pause state) (contains_key-modify id conn_id Connection.pause s.core.connections)
      (by_if Same (is_resume state)
        (contains_key-modify id conn_id Connection.resume s.core.connections) refl)
  where
    Same : Session → Type 0
    Same t = contains_key id t.core.connections ≡ contains_key id s.core.connections

-- Closing removes the connection, and no other.
pub contains_key-close_conn :
    (now : ℕ) (id j : Bytes) (s : Session)
    → contains_key j (close_conn now id s).core.connections
      ≡ (if bytes_eq id j then false else contains_key j s.core.connections)
unfolding close_conn drop_connection
contains_key-close_conn now id j s =
    by_test
      (λ (t : Session).
        contains_key j t.core.connections
        ≡ (if bytes_eq id j then false else contains_key j s.core.connections))
      (contains_key id s.core.connections)
      (λ found.
        contains_key-feed_ws j now (text (connect_state_build id closed)) (drop_connection id s)
        ∙ contains_key-remove_key id j s.core.connections)
      (λ missing. elim (Bool-cases (bytes_eq id j)) [
        | inr other ↦ sym (if_false (bytes_eq id j) false (contains_key j s.core.connections) other)
        | inl same ↦
            ap (λ k. contains_key k s.core.connections) (sym (bytes_eq→eq id j same))
            ∙ missing
            ∙ sym (if_true (bytes_eq id j) false (contains_key j s.core.connections) same)
      ])

closed_key :
    (now : ℕ) (id : Bytes) (s : Session)
    → contains_key id (close_conn now id s).core.connections ≡ false
closed_key now id s =
    contains_key-close_conn now id id s
    ∙ if_true (bytes_eq id id) false (contains_key id s.core.connections) (bytes_eq_refl id)

-- After a connection has been closed it is out of the table. While the WebSocket writer is open, the other side is told
-- exactly if there was such a connection, by a message that is the last in the queue; and closing the connection again,
-- which happens when both sides close at once, changes nothing, so the other side is told once.
pub close_conn_twice :
    (now later : ℕ) (id : Bytes) (s : Session)
    → s.writer.finished ≡ false
    → (contains_key id (close_conn now id s).core.connections ≡ false)
      × ((close_conn now id s).writer.queue ≡ (
          if contains_key id s.core.connections
          then s.writer.queue ++ text (connect_state_build id closed) ∷ []
          else s.writer.queue))
      × (close_conn later id (close_conn now id s) ≡ close_conn now id s)
unfolding close_conn drop_connection
close_conn_twice now later id s live = (
  closed_key now id s,
  elim (Bool-cases (contains_key id s.core.connections)) [
    | inl there ↦
        rw there
          (queue-feed_ws now (text (connect_state_build id closed)) (drop_connection id s) live)
    | inr missing ↦ rw missing refl
  ],
  if_false (contains_key id (close_conn now id s).core.connections) _ (close_conn now id s)
      (closed_key now id s),
)
