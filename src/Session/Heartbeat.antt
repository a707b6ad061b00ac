-- ===== src/Session/Heartbeat.antt =====
-- The timers of a session (src/protocol/shared.rs, src/protocol/util.rs): the heartbeat agent with the session's
-- own writer, and the wake-up of the UDP sockets.
use tws_rust.Prelude.{
  ℕ, ◌+◌, List, [], ◌∷◌, ◌++◌, Bool, true, false, not, if◌then◌else◌, ◌≡◌, ◌↔◌, refl, sym, ap, ◌∙◌,
  arith, inl, inr, Bool-cases, by_if, if_true, ◌⊎◌,
}
use tws_rust.Prelude.Equality.{nat_key}
use tws_rust.Util.Heartbeat.{Beat, tick, pong, Agent, run_lem, run_over}
use tws_rust.Util.Heartbeat
use tws_rust.Udp.Handle
use tws_rust.Session.Message.{ping}
use tws_rust.Session.ReadThrottle.{each_handle}
use tws_rust.Session.Writer.{finished-close_ws}
use tws_rust.Session.Service.{Session, feed_ws, close_ws}

-- The loop over the interval: whether it has ended with `Timed out`, and the session.
unfoldable pub on_tick : ℕ → Session → Bool × Session
unfolding close_ws feed_ws
on_tick now s =
    if not s.received
    then (true, close_ws s)
    else (false, record (feed_ws now (ping []) s) { received = false })

-- What the event loop and the peer do: the loop does not go on once it has ended.
unfoldable pub on_beat : ℕ → Beat → Bool × Session → Bool × Session
unfolding on_tick
on_beat now tick (over, s) = if over then (over, s) else on_tick now s
on_beat now pong (over, s) = (over, record s { received = true })

unfoldable pub run : ℕ → List Beat → Bool × Session → Bool × Session
unfolding on_beat
run now [] st = st
run now (b ∷ bs) st = run now bs (on_beat now b st)

-- `udp_cleanup_work`: the sockets of all UDP connections are polled again, so that idle ones can close.
unfoldable pub udp_cleanup : Session → Session
unfolding Handle.wake each_handle
udp_cleanup s = record s {
  core = record s.core { handles = each_handle Handle.wake s.core.udp_connections s.core.handles };
}

-- The session's agent, alone.
abbrev agent : ℕ → Bool × Session → Agent
agent pings (over, s) = record { heartbeat_received = s.received; pings = pings; timed_out = over }

over-run : (now : ℕ) (bs : List Beat) (s : Session) → (run now bs (true, s)).0 ≡ true
unfolding run
over-run now [] s = refl
over-run now (tick ∷ bs) s = over-run now bs s
over-run now (pong ∷ bs) s = over-run now bs (record s { received = true })

run-Agent :
    (now : ℕ) (bs : List Beat) (s : Session) (pings : ℕ)
    → (run now bs (false, s)).0 ≡ (Heartbeat.run bs (agent pings (false, s))).timed_out
unfolding run on_tick Heartbeat.run feed_ws
run-Agent now [] s pings = refl
run-Agent now (pong ∷ bs) s pings = run-Agent now bs (record s { received = true }) pings
run-Agent now (tick ∷ bs) s pings = elim (Bool-cases s.received) [
  | inl fresh ↦
      rw fresh
        (run-Agent now bs (record (feed_ws now (ping []) s) { received = false }) (pings + 1))
  | inr stale ↦
      let first : on_tick now s ≡ (true, close_ws s) =
        if_true (not s.received) _ _ (ap not stale) in
      let beat : (Heartbeat.on_tick (agent pings (false, s))).timed_out ≡ true = ground arith in
      ap (λ (st : Bool × Session). (run now bs st).0) first
      ∙ over-run now bs (close_ws s)
      ∙ sym (run_over bs (Heartbeat.on_tick (agent pings (false, s))) beat)
]

-- While the session goes on, the writer of a session that has timed out stays closed.
abbrev ClosedIfOver : Bool × Session → Type 0
ClosedIfOver (over, s) = (over ≡ false) ⊎ (s.writer.finished ≡ true)

on_tick-ClosedIfOver : (now : ℕ) (s : Session) → ClosedIfOver (on_tick now s)
unfolding on_tick
on_tick-ClosedIfOver now s =
    by_if (λ (st : Bool × Session). (st.0 ≡ false) ⊎ (st.1.writer.finished ≡ true)) (not s.received)
      (inr (finished-close_ws s)) (inl refl)

run-ClosedIfOver :
    (now : ℕ) (bs : List Beat) (over : Bool) (s : Session)
    → ClosedIfOver (over, s)
    → ClosedIfOver (run now bs (over, s))
unfolding run
run-ClosedIfOver now [] over s h = h
run-ClosedIfOver now (tick ∷ bs) true s h = run-ClosedIfOver now bs true s h
run-ClosedIfOver now (tick ∷ bs) false s h =
    run-ClosedIfOver now bs (on_tick now s).0 (on_tick now s).1 (on_tick-ClosedIfOver now s)
run-ClosedIfOver now (pong ∷ bs) over s h =
    run-ClosedIfOver now bs over (record s { received = true }) h

-- A session whose last ping was answered times out exactly if two ticks then come in a row, with no answer
-- between them; and when it times out, its writer is closed.
pub run-timed_out :
    (now : ℕ) (bs : List Beat) (s : Session)
    → s.received ≡ true
    → (((run now bs (false, s)).0 ≡ true)
        ↔ ((pre : List Beat) × (post : List Beat) × (bs ≡ pre ++ tick ∷ tick ∷ post)))
      × (((run now bs (false, s)).0 ≡ false) ⊎ ((run now bs (false, s)).1.writer.finished ≡ true))
unfolding Heartbeat.new
run-timed_out now bs s fresh =
    let alone : (run now bs (false, s)).0 ≡ (Heartbeat.run bs Heartbeat.new).timed_out =
      run-Agent now bs s 0
      ∙ ap
          (λ b.
            (Heartbeat.run bs
              (record { heartbeat_received = b; pings = 0; timed_out = false })).timed_out)
          fresh in
    let beats = run_lem bs in
    (
      ((λ over. beats.0 (sym alone ∙ over)), (λ h. alone ∙ beats.1 h)),
      run-ClosedIfOver now bs false s (inl refl),
    )
