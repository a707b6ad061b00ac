-- ===== src/Udp/Stream.antt =====
-- `UdpState` and `UdpStream` of src/protocol/udp.rs: the packets of one UDP client.
use tws_rust.Prelude.{
  ℕ, zero, suc, ◌+◌, ◌-◌, ◌≤◌, List, [], ◌∷◌, ◌++◌, Bool, false, if◌then◌else◌, leb, length, Option,
  none, some, ◌≡◌, refl, arith, ◌↔◌, Bool-cases, inl, inr, sym, ap, ap₂, ◌∙◌, append_assoc,
  append-nil, length-append,
}
use tws_rust.Text.Bytes.{Bytes}
use tws_rust.Net.Addr.{SocketAddr}
use tws_rust.Util.SharedStream.{emitted}
use tws_rust.Udp.Handle.{udp_queue_len, keep}
use tws_rust.Util.Throttling.{Poll, ready, ended, not_ready, failed, notify}

-- Instants and the timeout are in one unit. `err` is never set by the program.
pub record UdpState : Type 0 where
  pub remote : SocketAddr
  pub buf : List Bytes
  pub err : Bool
  pub task : Option ℕ
  pub timeout : ℕ
  pub last_activity : ℕ
  pub notified : List ℕ

unfoldable pub new : ℕ → SocketAddr → ℕ → UdpState
new now remote timeout = record {
  remote = remote;
  buf = [];
  err = false;
  task = none;
  timeout = timeout;
  last_activity = now;
  notified = [];
}

-- A full buffer drops the packet, and counts it as activity all the same.
unfoldable pub write : ℕ → Bytes → UdpState → UdpState
write now bytes s =
    if leb (length s.buf) udp_queue_len
    then record s { last_activity = now; buf = s.buf ++ bytes ∷ [] }
    else record s { last_activity = now }

unfoldable pub wake : UdpState → UdpState
unfolding notify
wake s = record s { notified = notify s.task s.notified }

abbrev first_task : Option ℕ → ℕ → Option ℕ
first_task none current = some current
first_task (some t) current = some t

-- `UdpStream::poll`.
unfoldable pub poll : ℕ → ℕ → UdpState → Poll Bytes × UdpState
poll now current s =
    let known = record s { task = first_task s.task current } in
    if s.err then (failed, record known { err = false }) else (elim s.buf [
      | b ∷ rest ↦ (ready b, record known { buf = rest })
      | [] ↦ if leb s.timeout (now - s.last_activity) then (ended, known) else (not_ready, known)
    ])

-- With no error a stream ends only when nothing is buffered and nothing has come for `timeout`; and then
-- it does end.
pub poll_ends :
    (now current : ℕ) (s : UdpState)
    → s.err ≡ false
    → ((poll now current s).0 ≡ ended) ↔ ((s.buf ≡ []) × (s.timeout ≤ now - s.last_activity))
unfolding poll
poll_ends now current s clean = elim (Bool-cases (leb s.timeout (now - s.last_activity))) [
  | inl idle ↦ ((λ e. (ground arith, ground arith)), (λ h. ground arith))
  | inr busy ↦ ((λ e. absurd (ground arith)), (λ h. absurd (ground arith)))
]

-- Packets that arrive with no poll in between, and the items of so many polls.
pub write_all : ℕ → List Bytes → UdpState → UdpState
write_all now [] s = s
write_all now (b ∷ bs) s = write_all now bs (write now b s)

pub poll_times : ℕ → ℕ → ℕ → UdpState → List Bytes × UdpState
poll_times zero now current s = ([], s)
poll_times (suc n) now current s =
    let (r, s') = poll now current s in
    let (outs, s'') = poll_times n now current s' in (emitted r ++ outs, s'')

write_all_full :
    (now : ℕ) (bs : List Bytes) (s : UdpState) → length s.buf ≡ 5 → (write_all now bs s).buf ≡ s.buf
unfolding write_all write
write_all_full now [] s e = refl
write_all_full now (b ∷ bs) s e =
    let same : (write now b s).buf ≡ s.buf = ground arith in
    write_all_full now bs (write now b s) (ap length same ∙ e) ∙ same

write_all_from :
    (room now : ℕ) (bs : List Bytes) (s : UdpState)
    → length s.buf + room ≡ 5
    → (write_all now bs s).buf ≡ s.buf ++ keep room bs
unfolding write_all write
write_all_from zero now bs s e = write_all_full now bs s (omega (arith, e)) ∙ sym (append-nil s.buf)
write_all_from (suc room) now [] s e = sym (append-nil s.buf)
write_all_from (suc room) now (b ∷ bs) s e =
    let kept : (write now b s).buf ≡ s.buf ++ b ∷ [] = ground arith in
    let size : length (write now b s).buf + room ≡ 5 =
      omega (arith, ap length kept, length-append s.buf (b ∷ [])) in
    write_all_from room now bs (write now b s) size
    ∙ ap (λ l. l ++ keep room bs) kept
    ∙ append_assoc s.buf (b ∷ []) (keep room bs)

write_all_clean :
    (now : ℕ) (bs : List Bytes) (s : UdpState) → s.err ≡ false → (write_all now bs s).err ≡ false
unfolding write_all write
write_all_clean now [] s e = e
write_all_clean now (b ∷ bs) s e = write_all_clean now bs (write now b s) (ground arith)

poll_times_lem :
    (bs : List Bytes) (now current : ℕ) (s : UdpState)
    → s.err ≡ false
    → s.buf ≡ bs
    → (poll_times (length bs) now current s).0 ≡ bs
unfolding poll_times poll
poll_times_lem [] now current s clean e = refl
poll_times_lem (b ∷ bs) now current s clean e =
    let first : (poll now current s).0 ≡ ready b = ground arith in
    let rest : (poll now current s).1.buf ≡ bs = ground arith in
    let still : (poll now current s).1.err ≡ false = ground arith in
    let later = poll_times_lem bs now current (poll now current s).1 still rest in
    ap₂ (λ r outs. emitted r ++ outs) first later

-- Of the packets that arrive before its first poll a new stream gives the first five, in their order; the
-- others are lost.
pub poll_times-write_all :
    (arrival now current timeout : ℕ) (remote : SocketAddr) (bs : List Bytes)
    → (poll_times
        (length (keep 5 bs))
        now
        current
        (write_all arrival bs (new arrival remote timeout))).0
      ≡ keep 5 bs
unfolding new
poll_times-write_all arrival now current timeout remote bs =
    poll_times_lem (keep 5 bs) now current (write_all arrival bs (new arrival remote timeout))
      (write_all_clean arrival bs (new arrival remote timeout) refl)
      (write_all_from 5 arrival bs (new arrival remote timeout) refl)

ends_from :
    (bs : List Bytes) (now current : ℕ) (s : UdpState)
    → s.err ≡ false
    → s.buf ≡ bs
    → s.timeout ≤ now - s.last_activity
    → (poll now current (poll_times (length bs) now current s).1).0 ≡ ended
unfolding poll_times poll
ends_from [] now current s clean e idle = ground arith
ends_from (b ∷ bs) now current s clean e idle =
    let rest : (poll now current s).1.buf ≡ bs = ground arith in
    let still : (poll now current s).1.err ≡ false = ground arith in
    let quiet : (poll now current s).1.timeout ≤ now - (poll now current s).1.last_activity =
      ground arith in
    ends_from bs now current (poll now current s).1 still rest quiet

-- A stream whose peer has been silent for the timeout ends: it still gives all that it has buffered, in order,
-- one packet at each poll, and the next poll is its end.
pub poll_times-ended :
    (now current : ℕ) (s : UdpState)
    → s.err ≡ false
    → s.timeout ≤ now - s.last_activity
    → ((poll_times (length s.buf) now current s).0 ≡ s.buf)
      × ((poll now current (poll_times (length s.buf) now current s).1).0 ≡ ended)
poll_times-ended now current s clean idle =
    (poll_times_lem s.buf now current s clean refl, ends_from s.buf now current s clean refl idle)
