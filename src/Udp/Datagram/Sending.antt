-- ===== src/Udp/Datagram/Sending.antt =====
-- How `UdpDatagram::poll` of src/protocol/udp.rs empties the send queue.
use tws_rust.Prelude.{
  ℕ, List, [], ◌∷◌, Bool, true, false, ◌&&◌, Option, none, some, ◌≡◌, refl, ap, ◌∙◌, inl, inr,
  Option-cases, if_false,
}
use tws_rust.Prelude.Equality.{nat_key}
use tws_rust.Text.Bytes.{Bytes}
use tws_rust.Net.Addr.{SocketAddr, addr_key}
use tws_rust.Map.{get}
use tws_rust.Util.Throttling.{not_ready}
use tws_rust.Util.SharedStream.{first_task}
use tws_rust.Udp.Handle.{Handle}
use tws_rust.Udp.Datagram.Prepared.{prepared}
use tws_rust.Udp.Datagram.{
  Datagram, nothing, remove_conn, remove_conns, idle_ids, touch_id, touch_target, try_send, flush,
  purge, receive, poll, is_closed, is_empty,
}

touch_target_close :
    (now : ℕ) (target : Option SocketAddr) (d : Datagram)
    → ((touch_target now target d).close_if_no_conn ≡ d.close_if_no_conn)
      × ((touch_target now target d).handle ≡ d.handle)
touch_target_close now none d = (refl, refl)
touch_target_close now (some addr) d = go (get addr d.conn_states_reverse_map)
  where
    go :
        (o : Option ℕ)
        → ((touch_id now o d).close_if_no_conn ≡ d.close_if_no_conn)
          × ((touch_id now o d).handle ≡ d.handle)
    go none = (refl, refl)
    go (some id) = (refl, refl)

remove_conns_handle :
    (ids : List ℕ) (d : Datagram)
    → ((remove_conns ids d).handle ≡ d.handle)
      × ((remove_conns ids d).close_if_no_conn ≡ d.close_if_no_conn)
unfolding remove_conns remove_conn
remove_conns_handle [] d = (refl, refl)
remove_conns_handle (i ∷ ids) d =
    let (h, c) = remove_conns_handle ids (remove_conn i d) in
    elim (Option-cases (get i d.conn_states)) [
      | inl e ↦ (h ∙ rw e refl, c ∙ rw e refl)
      | inr (conn, e) ↦ (h ∙ rw e refl, c ∙ rw e refl)
    ]

try_send_first :
    (now : ℕ) (first : Option SocketAddr × Bytes) (rest : List (Option SocketAddr × Bytes))
    (d : Datagram)
    → ((try_send now true (first ∷ rest) d).handle.buf ≡ rest)
      × ((try_send now true (first ∷ rest) d).close_if_no_conn ≡ d.close_if_no_conn)
      × ((try_send now true (first ∷ rest) d).handle.notified ≡ d.handle.notified)
try_send_first now (target, bytes) rest d =
    let (close, handle) = touch_target_close now target d in
    (refl, close, ap (λ (h : Handle). h.notified) handle)

-- A poll sends one packet at most, and when nothing comes in it then waits, however many packets are left: they
-- stay in the queue, and no task has been notified to send them.
pub poll_sends_one :
    (now current : ℕ) (first : Option SocketAddr × Bytes) (rest : List (Option SocketAddr × Bytes))
    (d : Datagram)
    → d.handle.buf ≡ first ∷ rest
    → d.close_if_no_conn ≡ false
    → (d' : Datagram) × (poll now current true nothing d ≡ some (not_ready, d'))
      × (d'.handle.buf ≡ rest)
      × (d'.handle.notified ≡ d.handle.notified)
unfolding poll flush purge receive
poll_sends_one now current first rest d e shared =
    let task = record d { handle = record d.handle { task = first_task d.handle.task current } } in
    let f = flush now current true d in
    let (buf, close, quiet) = try_send_first now first rest task in
    let sent : f ≡ try_send now true (first ∷ rest) task = ap (λ b. try_send now true b task) e in
    let (handle, close') = remove_conns_handle (idle_ids now f.timeout f.conn_states) f in
    let before = purge now f in
    let stays : is_closed before ≡ false =
      ap (λ b. b && is_empty before.conn_states)
        (close' ∙ ap (λ (x : Datagram). x.close_if_no_conn) sent ∙ close ∙ shared) in
    (
      before,
      if_false (is_closed before) _ _ stays,
      ap (λ (h : Handle). h.buf) handle ∙ ap (λ (x : Datagram). x.handle.buf) sent ∙ buf,
      ap (λ (h : Handle). h.notified) handle
          ∙ ap (λ (x : Datagram). x.handle.notified) sent
          ∙ quiet,
    )

-- Until a poll reads, it does not change whether the socket closes with its last connection.
pub prepared_close :
    (now current : ℕ) (taken : Bool) (d : Datagram)
    → (prepared now current taken d).close_if_no_conn ≡ d.close_if_no_conn
unfolding prepared flush purge
prepared_close now current taken d =
    let f = flush now current taken d in
    (remove_conns_handle (idle_ids now f.timeout f.conn_states) f).1
    ∙ flush_close d.handle.buf
        (record d { handle = record d.handle { task = first_task d.handle.task current } })
  where
    flush_close :
        (buf : List (Option SocketAddr × Bytes)) (x : Datagram)
        → (try_send now taken buf x).close_if_no_conn ≡ x.close_if_no_conn
    flush_close [] x = refl
    flush_close ((target, bytes) ∷ rest) x = (touch_target_close now target x).0
