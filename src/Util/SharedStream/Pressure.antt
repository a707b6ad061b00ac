-- ===== src/Util/SharedStream/Pressure.antt =====
-- Back pressure: the throttling handler of a shared writer is paused exactly while the queue is long.
use tws_rust.Prelude.{
  ℕ, suc, ◌+◌, List, [], ◌∷◌, true, false, not, ◌||◌, ltb, leb, length, length-append, some, ◌≡◌,
  refl, sym, ◌⊎◌, inl, inr, arith, Bool-cases, if_false, subst,
}
use tws_rust.Util.Speedometer.{speed}
use tws_rust.Util.Throttling.{ThrottlingHandler, IsLawful}
use tws_rust.Util.SharedStream.{
  SharedState, new, Event, feeds, polls, closes, clones, drops, run, set_throttling_handler, close,
  drop_writer, clone, popped, pushed, relieve, poll, press, feed, step, run_events,
  queue_max_length,
}

module _ {I S : Type 0} (get_size : I → ℕ) (h : ThrottlingHandler S) (lawful : IsLawful h) where
  -- Either the stream is closed, or it has a handler, which is paused while four items or more are queued.
  abbrev pub IsPressed : SharedState I S → Type 0
  IsPressed s =
      (s.finished ≡ true)
      ⊎ ((k : S) × (s.handler ≡ some k) × (h.is_paused k ≡ leb queue_max_length (length s.queue)))

  relieve-IsPressed :
      (s : SharedState I S) (k : S)
      → s.handler ≡ some k
      → h.is_paused k ≡ leb queue_max_length (suc (length s.queue))
      → IsPressed (relieve get_size h s)
  unfolding relieve
  relieve-IsPressed s k e p = elim (Bool-cases (ltb (length s.queue) queue_max_length)) [
    | inr long ↦ inr (k, rw (long, e), ground arith)
    | inl short ↦ elim (Bool-cases (h.is_paused k)) [
      | inl on ↦ inr (h.resume k, ground arith, ground (arith, lawful.resumed k))
      | inr off ↦ inr (k, ground arith, ground arith)
    ]
  ]

  press-IsPressed :
      (now n : ℕ) (s : SharedState I S) (k : S)
      → s.handler ≡ some k
      → length s.queue ≡ suc n
      → h.is_paused k ≡ leb queue_max_length n
      → IsPressed (press get_size h now s)
  unfolding press
  press-IsPressed now n s k e len p = elim (Bool-cases (leb queue_max_length (length s.queue))) [
    | inr short ↦ inr (k, rw (short, e), ground arith)
    | inl long ↦ elim (Bool-cases (not (h.is_paused k) || h.allow_pause_multiple_times)) [
      | inl go ↦ inr (
        h.pause (speed now s.speedometer) k,
        ground arith,
        ground (arith, lawful.paused (speed now s.speedometer) k),
      )
      | inr stay ↦ inr (k, ground arith, ground arith)
    ]
  ]

  feed-IsPressed :
      (now : ℕ) (item : I) (s : SharedState I S)
      → IsPressed s
      → IsPressed (feed get_size h now item s)
  unfolding feed
  feed-IsPressed now item s (inl over) = inl (ground arith)
  feed-IsPressed now item s (inr (k, e, p)) = elim (Bool-cases s.finished) [
    | inl over ↦ inl (ground arith)
    | inr live ↦
        let len : length (pushed item s).queue ≡ suc (length s.queue) =
          omega (arith, length-append s.queue (item ∷ [])) in
        subst IsPressed (sym (if_false s.finished s (press get_size h now (pushed item s)) live))
          (press-IsPressed now (length s.queue) (pushed item s) k e len p)
  ]

  poll-IsPressed :
      (now current : ℕ) (s : SharedState I S) (q : List I)
      → s.queue ≡ q
      → IsPressed s
      → IsPressed (poll get_size h now current s).1
  unfolding poll
  poll-IsPressed now current s q e (inl over) = inl (ground arith)
  poll-IsPressed now current s [] e (inr (k, has, p)) = elim (Bool-cases s.finished) [
    | inl over ↦ inl (ground arith)
    | inr live ↦ inr (k, ground arith, ground arith)
  ]
  poll-IsPressed now current s (item ∷ rest) e (inr (k, has, p)) = elim (Bool-cases s.finished) [
    | inl over ↦ inl (ground arith)
    | inr live ↦
        let after = popped get_size h now current item rest s in
        let pressed = relieve-IsPressed after k has (ground arith) in rw (live, e) pressed
  ]

  step-IsPressed :
      (e : Event I) (s : SharedState I S) → IsPressed s → IsPressed (step get_size h e s).1
  unfolding step close clone drop_writer
  step-IsPressed (feeds now item) s p = feed-IsPressed now item s p
  step-IsPressed (polls now current) s p = poll-IsPressed now current s s.queue refl p
  step-IsPressed closes s p = inl (ground arith)
  step-IsPressed clones s p = p
  step-IsPressed drops s (inl over) = inl (ground arith)
  step-IsPressed drops s (inr (k, e, p)) = elim (Bool-cases (leb (s.writers + s.streams) 2)) [
    | inl last ↦ inl (ground arith)
    | inr shared ↦ inr (k, ground arith, ground arith)
  ]

  run_events-IsPressed :
      (es : List (Event I)) (s : SharedState I S)
      → IsPressed s
      → IsPressed (run_events get_size h es s).1
  unfolding run_events
  run_events-IsPressed [] s p = p
  run_events-IsPressed (e ∷ es) s p =
      run_events-IsPressed es (step get_size h e s).1 (step-IsPressed e s p)

  -- A writer that was given a handler which is not paused keeps it paused exactly while four items or more
  -- are queued, whatever is fed and polled, until it is closed.
  pub back_pressure :
      (k : S) (es : List (Event I)) (now : ℕ)
      → h.is_paused k ≡ false
      → let s = (run_events get_size h es (run (set_throttling_handler k (new I S now)))).1 in
        (s.finished ≡ true)
        ⊎ ((k' : S) × (s.handler ≡ some k')
            × (h.is_paused k' ≡ leb queue_max_length (length s.queue)))
  unfolding new run set_throttling_handler
  back_pressure k es now idle = run_events-IsPressed es _ (inr (k, refl, idle))
