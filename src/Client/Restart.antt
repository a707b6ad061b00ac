-- ===== src/Client/Restart.antt =====
-- A run of `TwsClient` of src/protocol/client.rs: sessions that start, end and start again.
use tws_rust.Prelude.{
  ◌==◌, false, if_false, ℕ, zero, suc, ◌-◌, ◌^◌, ◌<◌, ◌≤◌, List, [], ◌∷◌, Bool, Option, none, some,
  get_elem?, length, All, ◌≡◌, refl, ap, ◌∙◌, arith, Option-cases, inl, inr,
}
use tws_rust.Protocol.Auth.{Crypto}
use tws_rust.Client.State.{ClientOption, Client, new}
use tws_rust.Client.Sessions.{
  retry_bound, retry_sleep, retry_bound_positive, choose_session, next_retry, Chosen,
  choose_session-Chosen,
}
use tws_rust.Client.Pool.{
  Slot, TwsClient, Outcome, fill, wait_slot, end_slot, empty_slots, maintain_sessions, handles, put,
  put_slot, at_slot, put_session, on_handle, on_slot, with_handle, assign, accept_tcp, accept_udp,
  Event, starts, ends, accepts, accepts_udp, acts, step, run, and_then, run_session, end_session,
}
use tws_rust.Client.Request.{
  AcceptsKeys, IsDraws, add_pending_connection-Runs, add_udp_connection-Runs,
}
use tws_rust.Client.Assign.{length-put, working_slot}

-- The slots are as many as the options say, and no count of attempts can overflow its 32 bits.
abbrev pub IsFit : ℕ → TwsClient → Type 0
IsFit n p = (length p.slots ≡ n) × All (λ (slot : Slot). slot.retry_count ≤ 2 ^ 32 - 2) p.slots

-- The events name slots that there are, identifiers are drawn as the generator does, and what a session does by itself
-- does not panic.
abbrev pub IsEvent : ℕ → Event → Type 0
IsEvent n (starts now i) = i < n
IsEvent n (ends is_err draw i) = i < n
IsEvent n (accepts now draws id_draws) = IsDraws id_draws
IsEvent n (accepts_udp now draws id_draws addr) = IsDraws id_draws
IsEvent n (acts i f) = (i < n) × ((s : Client) → (s' : Client) × (f s ≡ some s'))

abbrev pub Goes : ℕ → Outcome → Type 0
Goes n o = (p : TwsClient) × (o ≡ some p) × IsFit n p

All-put :
    {A : Type 0} (P : A → Type 0) (i : ℕ) (a : A) (xs : List A)
    → P a
    → All P xs
    → All P (put i a xs)
unfolding put
All-put P i a [] h hs = hs
All-put P zero a (x ∷ xs) h hs = (h, hs.1)
All-put P (suc i) a (x ∷ xs) h hs = (hs.0, All-put P i a xs h hs.1)

All-get :
    {A : Type 0} (P : A → Type 0) (i : ℕ) (xs : List A)
    → i < length xs
    → All P xs
    → (x : A) × (get_elem? xs i ≡ some x) × P x
All-get P i [] h hs = absurd (omega (arith, h))
All-get P zero (x ∷ xs) h hs = (x, refl, hs.0)
All-get P (suc i) (x ∷ xs) h hs = All-get P i xs (omega (arith, h)) hs.1

put-IsFit :
    (n i : ℕ) (slot : Slot) (p : TwsClient)
    → IsFit n p
    → slot.retry_count ≤ 2 ^ 32 - 2
    → IsFit n (record p { slots = put i slot p.slots })
put-IsFit n i slot p h bound = (
  length-put i slot p.slots ∙ h.0,
  All-put (λ (x : Slot). x.retry_count ≤ 2 ^ 32 - 2) i slot p.slots bound h.1,
)

at_slot-Goes :
    (n i : ℕ) (f : Slot → Option Slot) (p : TwsClient)
    → IsFit n p
    → i < n
    → ((slot : Slot)
        → slot.retry_count ≤ 2 ^ 32 - 2
        → (slot' : Slot) × (f slot ≡ some slot') × (slot'.retry_count ≤ 2 ^ 32 - 2))
    → Goes n (at_slot i f p)
at_slot-Goes n i f p h inside keeps =
    let (slot, e, bound) =
      All-get (λ (x : Slot). x.retry_count ≤ 2 ^ 32 - 2) i p.slots (omega (arith, h.0, inside))
        h.1 in
    let (slot', goes, bound') = keeps slot bound in
    (
      record p { slots = put i slot' p.slots },
      ap (λ o. put_slot i f o p) e ∙ ap (λ o. fill i o p) goes,
      put-IsFit n i slot' p h bound',
    )

next_retry-bound : (is_err : Bool) (count : ℕ) → next_retry is_err count ≤ 2 ^ 32 - 2
unfolding next_retry
next_retry-bound is_err count = ground arith

next_retry_positive : (is_err : Bool) (count : ℕ) → 1 ≤ next_retry is_err count
unfolding next_retry
next_retry_positive is_err count = ground arith

-- The end of a session always finds a delay.
end_slot_lem :
    (retry_timeout : ℕ) (is_err : Bool) (draw : ℕ) (slot : Slot)
    → (slot' : Slot) × (end_slot retry_timeout is_err draw slot ≡ some slot')
      × (slot'.retry_count ≤ 2 ^ 32 - 2)
end_slot_lem retry_timeout is_err draw slot =
    let count = next_retry is_err slot.retry_count in
    let some_range : (retry_bound count == 0) ≡ false =
      retry_bound_positive count (next_retry_positive is_err slot.retry_count) in
    (
      record { session = none; retry_count = count; delay = retry_sleep retry_timeout draw },
      ap (wait_slot retry_timeout count)
          (if_false (retry_bound count == 0) none (some draw) some_range),
      next_retry-bound is_err slot.retry_count,
    )

with_handle-Goes :
    (n i : ℕ) (f : Client → Option Client) (p : TwsClient)
    → IsFit n p
    → i < n
    → ((s : Client) → (s' : Client) × (f s ≡ some s'))
    → Goes n (with_handle i f p)
with_handle-Goes n i f p h inside total =
    let (slot, e, bound) =
      All-get (λ (x : Slot). x.retry_count ≤ 2 ^ 32 - 2) i p.slots (omega (arith, h.0, inside))
        h.1 in
    elim (Option-cases slot.session) [
      | inl none_there ↦
          (p, ap (λ o. on_slot i f o p) e ∙ ap (λ o. on_handle i f slot o p) none_there, h)
      | inr (s, there) ↦
          let (s', goes) = total s in
          (
            record p { slots = put i (record slot { session = some s' }) p.slots },
            ap (λ o. on_slot i f o p) e
                ∙ ap (λ o. on_handle i f slot o p) there
                ∙ ap (λ o. put_session i slot o p) goes,
            put-IsFit n i (record slot { session = some s' }) p h bound,
          )
    ]

get-inside : {A : Type 0} (xs : List A) (i : ℕ) (x : A) → get_elem? xs i ≡ some x → i < length xs
get-inside [] i x e = absurd (ground arith)
get-inside (y ∷ xs) zero x e = omega arith
get-inside (y ∷ xs) (suc i) x e = omega (arith, get-inside xs i x e)

assign-Goes :
    (n : ℕ) (draws : List ℕ) (f : Client → Option Client) (p : TwsClient)
    → IsFit n p
    → ((s : Client) → (s' : Client) × (f s ≡ some s'))
    → Goes n (assign f (choose_session draws (handles p)) p)
assign-Goes n draws f p h total =
    go (choose_session draws (handles p)) (choose_session-Chosen draws (handles p))
  where
    go : (o : Option ℕ) → Chosen draws (handles p) o → Goes n (assign f o p)
    go none idle = (p, refl, h)
    go (some i) up =
        let (slot, s, e, found, connected) = working_slot p i up in
        with_handle-Goes n i f p h (omega (arith, h.0, get-inside p.slots i slot e)) total

step-Goes :
    (c : Crypto) (n : ℕ) (ev : Event) (p : TwsClient)
    → AcceptsKeys c
    → IsEvent n ev
    → IsFit n p
    → Goes n (step c ev p)
unfolding step run_session end_session accept_tcp accept_udp
step-Goes c n (starts now i) p keys inside h =
    at_slot-Goes n i (λ slot. some (record slot { session = some (new now p.option) })) p h inside
      (λ slot bound. (_, refl, bound))
step-Goes c n (ends is_err draw i) p keys inside h =
    at_slot-Goes n i _ p h inside (λ slot bound. end_slot_lem p.retry_timeout is_err draw slot)
step-Goes c n (accepts now draws id_draws) p keys drawn h = assign-Goes n draws _ p h (λ s.
    let (s', id, goes, _, _, _) = add_pending_connection-Runs c now id_draws s keys drawn in
    (s', goes))
step-Goes c n (accepts_udp now draws id_draws addr) p keys drawn h = assign-Goes n draws _ p h (λ s.
    let (s', id, goes, _, _, _) = add_udp_connection-Runs c now id_draws addr s keys drawn in
    (s', goes))
step-Goes c n (acts i f) p keys inside h = with_handle-Goes n i f p h inside.0 inside.1

run-Goes :
    (c : Crypto) (n : ℕ) (evs : List Event) (p : TwsClient)
    → AcceptsKeys c
    → All (IsEvent n) evs
    → IsFit n p
    → Goes n (run c evs p)
unfolding run
run-Goes c n [] p keys es h = (p, refl, h)
run-Goes c n (ev ∷ evs) p keys es h =
    let (p', e, h') = step-Goes c n ev p keys es.0 h in
    let (p'', e', h'') = run-Goes c n evs p' keys es.1 h' in
    (p'', ap (λ o. and_then o (run c evs)) e ∙ e', h'')

maintain_sessions-IsFit :
    (option : ClientOption) (retry_timeout n : ℕ)
    → IsFit n (maintain_sessions option retry_timeout n)
unfolding maintain_sessions empty_slots
maintain_sessions-IsFit option retry_timeout zero = (refl, tt)
maintain_sessions-IsFit option retry_timeout (suc n) =
    let (size, bounds) = maintain_sessions-IsFit option retry_timeout n in
    (ap suc size, (omega arith, bounds))

-- In a build without overflow checks, `TwsClient` goes on whatever happens, as long as HMAC takes every key and no
-- session panics by itself: with sessions that start, end and start again and connections that are accepted, no slot
-- is out of range, the range that a delay is drawn from is never empty, and no identifier fails, so that it does not
-- panic; it keeps as many slots as it has been told to, and its retry counters do not overflow.
pub run-maintain_sessions :
    (c : Crypto) (option : ClientOption) (retry_timeout n : ℕ) (evs : List Event)
    → AcceptsKeys c
    → All (IsEvent n) evs
    → (p : TwsClient) × (run c evs (maintain_sessions option retry_timeout n) ≡ some p) × IsFit n p
run-maintain_sessions c option retry_timeout n evs keys es =
    run-Goes c n evs (maintain_sessions option retry_timeout n) keys es
      (maintain_sessions-IsFit option retry_timeout n)
