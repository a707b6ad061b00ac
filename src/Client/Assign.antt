-- ===== src/Client/Assign.antt =====
-- What the loops of `TwsClient` (src/protocol/client.rs) do with the connections that they accept.
use tws_rust.Prelude.{
  ℕ, zero, suc, ◌==◌, List, [], ◌∷◌, map, true, false, Option, none, some, get_elem?, length, All,
  if◌then◌else◌, ◌≡◌, refl, sym, ap, ◌∙◌, ◌⊎◌, inl, inr, arith, Option-cases, Bool-cases,
}
use tws_rust.Text.Bytes.{Bytes, bytes_key}
use tws_rust.Net.Addr.{SocketAddr}
use tws_rust.Protocol.Auth.{Crypto}
use tws_rust.Util.RandStr.{rand_str}
use tws_rust.Client.State.{is_connected, Client, add_pending_connection, add_udp_connection}
use tws_rust.Client.Sessions.{choose_session, is_working, Chosen, choose_session-Chosen}
use tws_rust.Client.Pool.{
  Slot, TwsClient, handles, put, with_handle, assign, accept_tcp, accept_udp,
}
use tws_rust.Client.Request.{
  AcceptsKeys, IsDraws, Waits, Visits, add_pending_connection-Runs, add_udp_connection-Runs,
}

-- What stands at a place after another is filled.
pub get-put :
    {A : Type 0} (i j : ℕ) (a b : A) (xs : List A)
    → get_elem? xs i ≡ some b
    → get_elem? (put i a xs) j ≡ (if i == j then some a else get_elem? xs j)
unfolding put
get-put i j a b [] e = absurd (ground arith)
get-put zero zero a b (x ∷ xs) e = refl
get-put zero (suc j) a b (x ∷ xs) e = ground arith
get-put (suc i) zero a b (x ∷ xs) e = ground arith
get-put (suc i) (suc j) a b (x ∷ xs) e = get-put i j a b xs e ∙ ground arith

-- A place that is filled leaves the length.
pub length-put : {A : Type 0} (i : ℕ) (a : A) (xs : List A) → length (put i a xs) ≡ length xs
unfolding put
length-put i a [] = refl
length-put zero a (x ∷ xs) = refl
length-put (suc i) a (x ∷ xs) = ap suc (length-put i a xs)

get-map :
    {A B : Type 0} (f : A → B) (j : ℕ) (xs : List A)
    → get_elem? (map f xs) j ≡ (elim (get_elem? xs j) [ none ↦ none | some x ↦ some (f x) ])
get-map f j [] = refl
get-map f zero (x ∷ xs) = refl
get-map f (suc j) (x ∷ xs) = get-map f j xs

-- A session that is connected has the connection, in the way that is told, and no other slot has changed.
abbrev pub TakenBy : (Bytes → Client → Type 0) → ℕ → List ℕ → TwsClient → TwsClient → Type 0
TakenBy Has i id_draws p p' =
    (s : Client) × (s' : Client) × (id : Bytes) × (get_elem? (handles p) i ≡ some (some s))
    × (s.connected ≡ true)
    × (rand_str id_draws ≡ some id)
    × Has id s'
    × ((j : ℕ)
        → get_elem? (handles p') j ≡ (if i == j then some (some s') else get_elem? (handles p) j))

-- A connection that is accepted is taken by one session, or nothing changes and none that was drawn is working.
abbrev pub Dealt :
    (Bytes → Client → Type 0) → List ℕ → List ℕ → TwsClient → Option TwsClient → Type 0
Dealt Has draws id_draws p o =
    (p' : TwsClient) × (o ≡ some p')
    × (((p' ≡ p) × All (λ i. is_working (handles p) i ≡ false) draws)
        ⊎ ((i : ℕ) × TakenBy Has i id_draws p p'))

-- A session that is working is in its slot.
pub working_slot :
    (p : TwsClient) (i : ℕ)
    → is_working (handles p) i ≡ true
    → (slot : Slot) × (s : Client) × (get_elem? p.slots i ≡ some slot)
      × (slot.session ≡ some s)
      × (s.connected ≡ true)
unfolding is_working is_connected
working_slot p i h = elim (Option-cases (get_elem? p.slots i)) [
  | inl e ↦ absurd (ground (arith, get-map (λ (slot : Slot). slot.session) i p.slots))
  | inr (slot, e) ↦ elim (Option-cases slot.session) [
    | inl f ↦ absurd (ground (arith, get-map (λ (slot : Slot). slot.session) i p.slots))
    | inr (s, f) ↦
        (slot, s, e, f, ground (arith, get-map (λ (slot : Slot). slot.session) i p.slots))
  ]
]

put_taken :
    (i : ℕ) (slot : Slot) (s' : Client) (p : TwsClient) (j : ℕ)
    → get_elem? p.slots i ≡ some slot
    → get_elem? (handles (record p { slots = put i (record slot { session = some s' }) p.slots })) j
      ≡ (if i == j then some (some s') else get_elem? (handles p) j)
put_taken i slot s' p j e =
    let session = λ (x : Slot). x.session in
    get-map session j (put i (record slot { session = some s' }) p.slots)
    ∙ ap (λ o. elim o [ none ↦ none | some x ↦ some (session x) ])
        (get-put i j (record slot { session = some s' }) slot p.slots e)
    ∙ elim (Bool-cases (i == j)) [
      | inl same ↦ rw same refl
      | inr other ↦ rw other (sym (get-map session j p.slots))
    ]

-- What a session does with a connection that it is given.
abbrev Takes : (Bytes → Client → Type 0) → List ℕ → (Client → Option Client) → Type 0
Takes Has id_draws f =
    (s : Client)
    → (s' : Client) × (id : Bytes) × (f s ≡ some s')
      × (rand_str id_draws ≡ some id)
      × Has id s'
      × (s'.connected ≡ s.connected)

take_chosen :
    (Has : Bytes → Client → Type 0) (f : Client → Option Client) (id_draws : List ℕ) (p : TwsClient)
    (i : ℕ)
    → Takes Has id_draws f
    → is_working (handles p) i ≡ true
    → (p' : TwsClient) × (with_handle i f p ≡ some p') × TakenBy Has i id_draws p p'
take_chosen Has f id_draws p i takes up =
    let (slot, s, e, there, connected) = working_slot p i up in
    let (s', id, taken, drawn, has, same) = takes s in
    let p' = record p { slots = put i (record slot { session = some s' }) p.slots } in
    let found : get_elem? (handles p) i ≡ some (some s) =
      get-map (λ (x : Slot). x.session) i p.slots ∙ rw (e, there) refl in
    (
      p',
      rw (e, there, taken) refl,
      (s, s', id, found, connected, drawn, has, (λ j. put_taken i slot s' p j e)),
    )

assign-Dealt :
    (Has : Bytes → Client → Type 0) (f : Client → Option Client) (draws id_draws : List ℕ)
    (p : TwsClient) (o : Option ℕ)
    → Takes Has id_draws f
    → Chosen draws (handles p) o
    → Dealt Has draws id_draws p (assign f o p)
assign-Dealt Has f draws id_draws p none takes idle = (p, refl, inl (refl, idle))
assign-Dealt Has f draws id_draws p (some i) takes up =
    let (p', e, taken) = take_chosen Has f id_draws p i takes up in (p', e, inr (i, taken))

-- A connection that the client accepts is always dealt with: either one session, which is connected, takes it, and
-- no other session changes; or nothing changes, and then no session that was drawn is connected. A TCP connection
-- becomes pending in its session, and a UDP client has its connection there at once, with its address.
pub accept_tcp-Dealt :
    (c : Crypto) (now : ℕ) (draws id_draws : List ℕ) (addr : SocketAddr) (p : TwsClient)
    → AcceptsKeys c
    → IsDraws id_draws
    → Dealt Waits draws id_draws p (accept_tcp c now draws id_draws p)
      × Dealt (Visits addr) draws id_draws p (accept_udp c now draws id_draws addr p)
unfolding accept_tcp accept_udp
accept_tcp-Dealt c now draws id_draws addr p keys h =
    let chosen = choose_session-Chosen draws (handles p) in
    (
      assign-Dealt Waits (add_pending_connection c now id_draws) draws id_draws p
          (choose_session draws (handles p))
          (λ s. add_pending_connection-Runs c now id_draws s keys h) chosen,
      assign-Dealt (Visits addr) (add_udp_connection c now id_draws addr) draws id_draws p
          (choose_session draws (handles p))
          (λ s. add_udp_connection-Runs c now id_draws addr s keys h) chosen,
    )
