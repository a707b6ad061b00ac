-- ===== src/Client/Pool.antt =====
-- `TwsClient` of src/protocol/client.rs: its sessions, which it restarts, and the connections that it accepts.
use tws_rust.Prelude.{
  ◌==◌, if◌then◌else◌, ℕ, zero, suc, List, [], ◌∷◌, map, Bool, Option, none, some, get_elem?,
}
use tws_rust.Net.Addr.{SocketAddr}
use tws_rust.Protocol.Auth.{Crypto}
use tws_rust.Client.State.{ClientOption, Client, new, add_pending_connection, add_udp_connection}
use tws_rust.Client.Sessions.{choose_session, next_retry, retry_bound, retry_sleep}

-- `sessions[i]`, and the variables of the `i`-th `run_session`: the attempts that have failed, and the
-- milliseconds that it last slept.
pub record Slot : Type 0 where
  pub session : Option Client
  pub retry_count : ℕ
  pub delay : ℕ

pub record TwsClient : Type 0 where
  pub option : ClientOption
  pub retry_timeout : ℕ
  pub slots : List Slot

-- `none` is a panic.
abbrev pub Outcome : Type 0
Outcome = Option TwsClient

abbrev pub empty_slot : Slot
empty_slot = record { session = none; retry_count = 0; delay = 0 }

unfoldable pub empty_slots : ℕ → List Slot
empty_slots zero = []
empty_slots (suc n) = empty_slot ∷ empty_slots n

-- `maintain_sessions`, before the sessions that it spawns run.
unfoldable pub maintain_sessions : ClientOption → ℕ → ℕ → TwsClient
unfolding empty_slots
maintain_sessions option retry_timeout connections = record {
  option = option;
  retry_timeout = retry_timeout;
  slots = empty_slots connections;
}

abbrev pub handles : TwsClient → List (Option Client)
handles p = map (λ (slot : Slot). slot.session) p.slots

unfoldable pub put : {A : Type 0} → ℕ → A → List A → List A
put i a [] = []
put zero a (x ∷ xs) = a ∷ xs
put (suc i) a (x ∷ xs) = x ∷ put i a xs

-- An index out of range panics.
abbrev pub fill : ℕ → Option Slot → TwsClient → Outcome
fill i none p = none
fill i (some slot) p = some (record p { slots = put i slot p.slots })

abbrev pub put_slot : ℕ → (Slot → Option Slot) → Option Slot → TwsClient → Outcome
put_slot i f none p = none
put_slot i f (some slot) p = fill i (f slot) p

abbrev pub at_slot : ℕ → (Slot → Option Slot) → TwsClient → Outcome
at_slot i f p = put_slot i f (get_elem? p.slots i) p

-- `run_session`: a new session …
unfoldable pub run_session : ℕ → ℕ → TwsClient → Outcome
unfolding put
run_session now i p = at_slot i (λ slot. some (record slot { session = some (new now p.option) })) p

-- `rng.gen_range(0, bound)`, with the number that it draws: an empty range panics.
abbrev pub gen_range : ℕ → ℕ → Option ℕ
gen_range bound draw = if bound == 0 then none else some draw

abbrev pub wait_slot : ℕ → ℕ → Option ℕ → Option Slot
wait_slot retry_timeout count none = none
wait_slot retry_timeout count (some draw) =
    some (record { session = none; retry_count = count; delay = retry_sleep retry_timeout draw })

-- The retry count goes up or back, and the delay is drawn.
abbrev pub end_slot : ℕ → Bool → ℕ → Slot → Option Slot
end_slot retry_timeout is_err draw slot =
    let count = next_retry is_err slot.retry_count in
    wait_slot retry_timeout count (gen_range (retry_bound count) draw)

-- … and its end.
unfoldable pub end_session : Bool → ℕ → ℕ → TwsClient → Outcome
unfolding put next_retry retry_sleep retry_bound
end_session is_err draw i p = at_slot i (end_slot p.retry_timeout is_err draw) p

abbrev pub put_session : ℕ → Slot → Option Client → TwsClient → Outcome
put_session i slot none p = none
put_session i slot (some s) p =
    some (record p { slots = put i (record slot { session = some s }) p.slots })

abbrev pub on_handle : ℕ → (Client → Option Client) → Slot → Option Client → TwsClient → Outcome
on_handle i f slot none p = some p
on_handle i f slot (some s) p = put_session i slot (f s) p

abbrev pub on_slot : ℕ → (Client → Option Client) → Option Slot → TwsClient → Outcome
on_slot i f none p = none
on_slot i f (some slot) p = on_handle i f slot slot.session p

-- `if let Some(ref conn) = sessions[id] { … }`
abbrev pub with_handle : ℕ → (Client → Option Client) → TwsClient → Outcome
with_handle i f p = on_slot i f (get_elem? p.slots i) p

abbrev pub assign : (Client → Option Client) → Option ℕ → TwsClient → Outcome
assign f none p = some p
assign f (some i) p = with_handle i f p

-- The bodies of the loops of `run_tcp` and `run_udp`: a connection goes to a session, or is dropped.
unfoldable pub accept_tcp : Crypto → ℕ → List ℕ → List ℕ → TwsClient → Outcome
unfolding put choose_session add_pending_connection
accept_tcp c now draws id_draws p =
    assign (add_pending_connection c now id_draws) (choose_session draws (handles p)) p

unfoldable pub accept_udp : Crypto → ℕ → List ℕ → List ℕ → SocketAddr → TwsClient → Outcome
unfolding put choose_session add_udp_connection
accept_udp c now draws id_draws addr p =
    assign (add_udp_connection c now id_draws addr) (choose_session draws (handles p)) p

-- What may happen: `starts now i`, `ends is_err draw i`, and what a session does on its own.
pub data Event : Type 0 where
  starts : ℕ → ℕ → Event
  ends : Bool → ℕ → ℕ → Event
  accepts : ℕ → List ℕ → List ℕ → Event
  accepts_udp : ℕ → List ℕ → List ℕ → SocketAddr → Event
  acts : ℕ → (Client → Option Client) → Event

unfoldable pub step : Crypto → Event → TwsClient → Outcome
unfolding run_session end_session accept_tcp accept_udp put
step c (starts now i) p = run_session now i p
step c (ends is_err draw i) p = end_session is_err draw i p
step c (accepts now draws id_draws) p = accept_tcp c now draws id_draws p
step c (accepts_udp now draws id_draws addr) p = accept_udp c now draws id_draws addr p
step c (acts i f) p = with_handle i f p

abbrev pub and_then : Outcome → (TwsClient → Outcome) → Outcome
and_then none next = none
and_then (some p) next = next p

unfoldable pub run : Crypto → List Event → TwsClient → Outcome
unfolding step
run c [] p = some p
run c (ev ∷ evs) p = and_then (step c ev p) (run c evs)
