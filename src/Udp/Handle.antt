-- ===== src/Udp/Handle.antt =====
-- `UdpDatagramHandle` of src/protocol/udp.rs: the send queue of a UDP socket.
use tws_rust.Prelude.{
  ℕ, zero, suc, ◌+◌, List, [], ◌∷◌, ◌++◌, Bool, true, false, if◌then◌else◌, leb, length,
  length-append, Option, none, some, ◌≡◌, refl, sym, ap, ◌∙◌, arith, append_assoc, append-nil,
}
use tws_rust.Text.Bytes.{Bytes}
use tws_rust.Net.Addr.{SocketAddr}
use tws_rust.Util.Throttling.{notify}

abbrev pub udp_queue_len : ℕ
udp_queue_len = 4

-- A packet with its target, if it has one of its own. `notified` are the tasks that have been notified, oldest
-- first.
pub record Handle : Type 0 where
  pub buf : List (Option SocketAddr × Bytes)
  pub task : Option ℕ
  pub paused : Bool
  pub notified : List ℕ

unfoldable pub new : Handle
new = record { buf = []; task = none; paused = false; notified = [] }

unfoldable pub wake : Handle → Handle
unfolding notify
wake h = record h { notified = notify h.task h.notified }

-- A full queue drops the packet.
unfoldable pub enqueue : Option SocketAddr → Bytes → Handle → Handle
unfolding wake
enqueue target bytes h =
    if leb (length h.buf) udp_queue_len
    then wake (record h { buf = h.buf ++ (target, bytes) ∷ [] })
    else h

unfoldable pub send_to : SocketAddr → Bytes → Handle → Handle
unfolding enqueue
send_to target bytes h = enqueue (some target) bytes h

unfoldable pub send : Bytes → Handle → Handle
unfolding enqueue
send bytes h = enqueue none bytes h

unfoldable pub pause : Handle → Handle
pause h = record h { paused = true }

unfoldable pub resume : Handle → Handle
resume h = record h { paused = false }

-- Packets that are sent with no poll in between: the queue keeps the first of them, up to one more than
-- `UDP_QUEUE_LEN`, and drops the rest.
abbrev pub sent : Option SocketAddr → Bytes → Handle → Handle
sent none bytes h = send bytes h
sent (some target) bytes h = send_to target bytes h

pub send_all : List (Option SocketAddr × Bytes) → Handle → Handle
send_all [] h = h
send_all ((target, bytes) ∷ ps) h = send_all ps (sent target bytes h)

sent_lem :
    (target : Option SocketAddr) (bytes : Bytes) (h : Handle)
    → sent target bytes h ≡ enqueue target bytes h
unfolding send send_to
sent_lem none bytes h = refl
sent_lem (some target) bytes h = refl

abbrev pub keep : {A : Type 0} → ℕ → List A → List A
keep zero xs = []
keep (suc n) [] = []
keep (suc n) (x ∷ xs) = x ∷ keep n xs

send_all_full :
    (ps : List (Option SocketAddr × Bytes)) (h : Handle)
    → length h.buf ≡ 5
    → (send_all ps h).buf ≡ h.buf
unfolding send_all enqueue
send_all_full [] h e = refl
send_all_full ((target, bytes) ∷ ps) h e =
    let same : sent target bytes h ≡ h = sent_lem target bytes h ∙ ground arith in
    ap (λ k. (send_all ps k).buf) same ∙ send_all_full ps h e

send_all_from :
    (room : ℕ) (ps : List (Option SocketAddr × Bytes)) (h : Handle)
    → length h.buf + room ≡ 5
    → (send_all ps h).buf ≡ h.buf ++ keep room ps
unfolding send_all enqueue
send_all_from zero ps h e = send_all_full ps h (omega arith) ∙ sym (append-nil h.buf)
send_all_from (suc room) [] h e = sym (append-nil h.buf)
send_all_from (suc room) ((target, bytes) ∷ ps) h e =
    let pushed = h.buf ++ (target, bytes) ∷ [] in
    let kept : (sent target bytes h).buf ≡ pushed =
      ap (λ (k : Handle). k.buf) (sent_lem target bytes h) ∙ ground arith in
    let size : length (sent target bytes h).buf + room ≡ 5 =
      omega (arith, ap length kept, length-append h.buf ((target, bytes) ∷ [])) in
    send_all_from room ps (sent target bytes h) size
    ∙ ap (λ b. b ++ keep room ps) kept
    ∙ append_assoc h.buf ((target, bytes) ∷ []) (keep room ps)

-- From an empty queue the first five packets are kept, in order, and all others are dropped.
pub send_all_lem :
    (ps : List (Option SocketAddr × Bytes)) (h : Handle)
    → h.buf ≡ []
    → (send_all ps h).buf ≡ keep 5 ps
send_all_lem ps h e = send_all_from 5 ps h (rw e (omega arith)) ∙ rw e
