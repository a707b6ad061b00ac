-- ===== src/Util/Alternating.antt =====
-- `AlternatingStream` of src/protocol/util.rs: after a `Ready` the next poll gives `NotReady` and has the
-- task polled again.
use tws_rust.Prelude.{
  ℕ, zero, suc, ◌+◌, ◌≤◌, List, [], ◌∷◌, Bool, true, false, if◌then◌else◌, ◌≡◌, refl, ap, arith,
}
use tws_rust.Util.Throttling.{Poll, ready, ended, not_ready, failed}

-- Both `Ready(Some(_))` and `Ready(None)`.
abbrev pub is_ready : {A : Type 0} → Poll A → Bool
is_ready (ready a) = true
is_ready ended = true
is_ready not_ready = false
is_ready failed = false

-- A stream under it with the state `T`.
pub record Alternating (T : Type 0) : Type 0 where
  pub stream : T
  pub flag : Bool

unfoldable pub new : {T : Type 0} → T → Alternating T
new stream = record { stream = stream; flag = false }

-- The result of a poll, and whether the task notifies itself.
pub record Polled (A : Type 0) : Type 0 where
  pub result : Poll A
  pub notified : Bool

module _ {A T : Type 0} (inner : T → Poll A × T) where
  unfoldable pub poll : Alternating T → Polled A × Alternating T
  poll s =
      if s.flag
      then (record { result = not_ready; notified = true }, record s { flag = false })
      else let (r, stream') = inner s.stream in
        (record { result = r; notified = false }, record { stream = stream'; flag = is_ready r })

  -- `k` polls, and what they give.
  unfoldable pub poll_times : ℕ → Alternating T → List (Polled A) × Alternating T
  unfolding poll
  poll_times zero s = ([], s)
  poll_times (suc k) s = let (r, s') = poll s in let (rs, s'') = poll_times k s' in (r ∷ rs, s'')

  -- `m` polls of the stream itself.
  abbrev pub inner_times : ℕ → T → List (Poll A) × T
  inner_times zero t = ([], t)
  inner_times (suc m) t = let (r, t') = inner t in let (rs, t'') = inner_times m t' in (r ∷ rs, t'')

-- What the polls give that is not an inserted `NotReady`.
abbrev pub own : {A : Type 0} → List (Polled A) → List (Poll A)
own [] = []
own (p ∷ ps) = if p.notified then own ps else p.result ∷ own ps

-- No two results in a row are `Ready`.
abbrev pub Alternates : {A : Type 0} → Bool → List (Polled A) → Type 0
Alternates before [] = Unit {0}
Alternates true (p ∷ ps) = (is_ready p.result ≡ false) × Alternates (is_ready p.result) ps
Alternates false (p ∷ ps) = Alternates (is_ready p.result) ps

module _ {A T : Type 0} (inner : T → Poll A × T) where
  at : T → Bool → Alternating T
  at stream flag = record { stream = stream; flag = flag }

  Alternates-from :
      (k : ℕ) (t : T) (flag : Bool) → Alternates flag (poll_times inner k (at t flag)).0
  unfolding poll_times at
  Alternates-from zero t true = tt
  Alternates-from zero t false = tt
  Alternates-from (suc k) t true = (refl, Alternates-from k t false)
  Alternates-from (suc k) t false = let (r, t') = inner t in Alternates-from k t' (is_ready r)

  -- No two polls in a row are ready, so other streams get their turn.
  pub poll_times-Alternates : (k : ℕ) (t : T) → Alternates false (poll_times inner k (new t)).0
  unfolding new at
  poll_times-Alternates k t = Alternates-from k t false

  from : (flag : Bool) → ℕ
  from flag = if flag then 1 else 0

  polled_from :
      (k : ℕ) (t : T) (flag : Bool)
      → (m : ℕ) × (own (poll_times inner k (at t flag)).0 ≡ (inner_times inner m t).0)
        × ((poll_times inner k (at t flag)).1.stream ≡ (inner_times inner m t).1)
        × (k ≤ m + m + from flag)
  unfolding poll_times at from
  polled_from zero t flag = (0, refl, refl, omega arith)
  polled_from (suc k) t true =
      let (m, same, last, many) = polled_from k t false in (m, same, last, omega arith)
  polled_from (suc k) t false =
      let (r, t') = inner t in
      let (m, same, last, many) = polled_from k t' (is_ready r) in
      (suc m, ap (λ l. r ∷ l) same, last, ground arith)

  -- What the polls give besides the inserted `NotReady`s is what the stream under it gives, in order, with
  -- nothing lost or repeated, and at least half of the polls reach that stream.
  pub poll_times_lem :
      (k : ℕ) (t : T)
      → (m : ℕ) × (own (poll_times inner k (new t)).0 ≡ (inner_times inner m t).0)
        × ((poll_times inner k (new t)).1.stream ≡ (inner_times inner m t).1)
        × (k ≤ m + m)
  unfolding new at from
  poll_times_lem k t =
      let (m, same, last, many) = polled_from k t false in (m, same, last, omega arith)
