-- ===== src/Util/SharedStream/Keeps.antt =====
-- What pausing and resuming a throttling handler keep, a shared writer that uses the handler keeps.
use tws_rust.Prelude.{
  ℕ, List, [], ◌∷◌, not, ◌||◌, ltb, leb, length, Option, none, some, ◌≡◌, refl, inl, inr,
  Bool-cases, Option-cases, by_if, ◌⊎◌, subst,
}
use tws_rust.Util.Speedometer.{speed}
use tws_rust.Util.Throttling.{ThrottlingHandler, Poll}
use tws_rust.Util.SharedStream.{
  SharedState, popped, pushed, relieve, poll, press, feed, queue_max_length,
}

abbrev pub Holds : {S : Type 0} → (S → Type 0) → Option S → Type 0
Holds P none = Unit {0}
Holds P (some k) = P k

list-cases {ℓ} : {A : Type ℓ} (l : List A) → (l ≡ []) ⊎ ((x : A) × (rest : List A) × (l ≡ x ∷ rest))
list-cases [] = inl refl
list-cases (x ∷ rest) = inr (x, rest, refl)

module _ {I S : Type 0} (get_size : I → ℕ) (h : ThrottlingHandler S) (P : S → Type 0)
    (pauses : (max_speed : ℕ) (k : S) → P k → P (h.pause max_speed k))
    (resumes : (k : S) → P k → P (h.resume k)) where
  relieve-Holds : (s : SharedState I S) → Holds P s.handler → Holds P (relieve get_size h s).handler
  unfolding relieve
  relieve-Holds s p = elim (Bool-cases (ltb (length s.queue) queue_max_length)) [
    | inr long ↦ rw long p
    | inl short ↦ elim (Option-cases s.handler) [
      | inl e ↦ rw (short, e) p
      | inr (k, e) ↦
          let held : P k = subst (Holds P) e p in
          elim (Bool-cases (h.is_paused k)) [
            | inl on ↦ rw (short, e, on) (resumes k held)
            | inr off ↦ rw (short, e, off) p
          ]
    ]
  ]

  press-Holds :
      (now : ℕ) (s : SharedState I S) → Holds P s.handler → Holds P (press get_size h now s).handler
  unfolding press
  press-Holds now s p = elim (Bool-cases (leb queue_max_length (length s.queue))) [
    | inr short ↦ rw short p
    | inl long ↦ elim (Option-cases s.handler) [
      | inl e ↦ rw (long, e) p
      | inr (k, e) ↦
          let held : P k = subst (Holds P) e p in
          elim (Bool-cases (not (h.is_paused k) || h.allow_pause_multiple_times)) [
            | inl go ↦ rw (long, e, go) (pauses (speed now s.speedometer) k held)
            | inr stay ↦ rw (long, e, stay) p
          ]
    ]
  ]

  pub feed-Holds :
      (now : ℕ) (item : I) (s : SharedState I S)
      → Holds P s.handler
      → Holds P (feed get_size h now item s).handler
  unfolding feed
  feed-Holds now item s p =
      by_if (λ (x : SharedState I S). Holds P x.handler) s.finished p
        (press-Holds now (pushed item s) p)

  pub poll-Holds :
      (now current : ℕ) (s : SharedState I S)
      → Holds P s.handler
      → Holds P (poll get_size h now current s).1.handler
  unfolding poll
  poll-Holds now current s p =
      by_if (λ (x : Poll I × SharedState I S). Holds P x.1.handler) s.finished p
        (elim (list-cases s.queue) [
          | inl e ↦ rw e p
          | inr (item, rest, e) ↦ rw e (relieve-Holds (popped get_size h now current item rest s) p)
        ])
