-- ===== src/Client/Sessions.antt =====
-- The client's sessions (src/protocol/client.rs): the random choice of one for a new connection, and the
-- delay before a session is started again.
use tws_rust.Prelude.{
  ◌==◌, length, ℕ, zero, suc, ◌+◌, ◌-◌, ◌*◌, ◌%◌, ◌^◌, ◌≤◌, List, [], ◌∷◌, Bool, true, false, ◌&&◌,
  if◌then◌else◌, ltb, get_elem?, Option, subst, none, some, ◌≡◌, refl, ap, ◌∙◌, All, arith, by_test,
}
use native.Mathlib.Nat.{one-le-pow, pow-le-pow_right, two-pow-succ}
use tws_rust.Client.State.{Client, is_connected}

-- `if let Some(ref s) = sessions[i] { if s.is_connected() … }`
unfoldable pub is_working : List (Option Client) → ℕ → Bool
unfolding is_connected
is_working sessions i = elim (get_elem? sessions i) [
  | none ↦ false
  | some o ↦ elim o [ none ↦ false | some s ↦ is_connected s ]
]

-- `draws` are the numbers that the rounds of the loop draw: one for each session.
unfoldable pub choose_session : List ℕ → List (Option Client) → Option ℕ
unfolding is_working
choose_session [] sessions = none
choose_session (i ∷ draws) sessions =
    let later = choose_session draws sessions in if is_working sessions i then some i else later

abbrev pub Chosen : List ℕ → List (Option Client) → Option ℕ → Type 0
Chosen draws sessions none = All (λ i. is_working sessions i ≡ false) draws
Chosen draws sessions (some i) = is_working sessions i ≡ true

later-Chosen :
    (i : ℕ) (draws : List ℕ) (sessions : List (Option Client)) (o : Option ℕ)
    → is_working sessions i ≡ false
    → Chosen draws sessions o
    → Chosen (i ∷ draws) sessions o
later-Chosen i draws sessions none idle h = (idle, h)
later-Chosen i draws sessions (some j) idle h = h

-- A session that is chosen is connected; and none is chosen only if none of those that were drawn is.
pub choose_session-Chosen :
    (draws : List ℕ) (sessions : List (Option Client))
    → Chosen draws sessions (choose_session draws sessions)
unfolding choose_session
choose_session-Chosen [] sessions = tt
choose_session-Chosen (i ∷ draws) sessions =
    by_test (Chosen (i ∷ draws) sessions) (is_working sessions i) (λ up. up)
      (λ idle.
        later-Chosen i draws sessions (choose_session draws sessions) idle
          (choose_session-Chosen draws sessions))

-- The count after an attempt; `u32::max_value() - 1` is `2 ^ 32 - 2`.
unfoldable pub next_retry : Bool → ℕ → ℕ
next_retry is_err retry_count =
    if is_err && ltb retry_count (2 ^ 32 - 2) then retry_count + 1 else 1

-- `u64::pow(2, retry_count) - 1`, the exclusive bound of the number that is drawn: it wraps around.
unfoldable pub retry_bound : ℕ → ℕ
retry_bound retry_count = (2 ^ retry_count % 2 ^ 64 + 2 ^ 64 - 1) % 2 ^ 64

-- The milliseconds that the session sleeps.
unfoldable pub retry_sleep : ℕ → ℕ → ℕ
retry_sleep retry_timeout draw = (retry_timeout * draw % 2 ^ 64 + 1) % 2 ^ 64

-- The count after the ends of a session, the last one first: each has been an error, or not.
unfoldable pub retry_count : List Bool → ℕ
unfolding next_retry
retry_count [] = 0
retry_count (is_err ∷ before) = next_retry is_err (retry_count before)

-- The failures in a row up to now, and the end that was no error counts as one of them.
abbrev pub streak : List Bool → ℕ
streak [] = 0
streak (true ∷ before) = suc (streak before)
streak (false ∷ before) = 1

streak-length : (ended : List Bool) → streak ended ≤ length ended
streak-length [] = omega arith
streak-length (true ∷ before) = omega (arith, streak-length before)
streak-length (false ∷ before) = omega arith

retry_count-streak :
    (ended : List Bool) → length ended ≤ 2 ^ 32 - 2 → retry_count ended ≡ streak ended
unfolding retry_count
retry_count-streak [] h = refl
retry_count-streak (true ∷ before) h =
    ground (arith, retry_count-streak before (omega (arith, h)), streak-length before)
retry_count-streak (false ∷ before) h = refl

small_bound : (x : ℕ) → 1 ≤ x → x ≤ 2 ^ 63 → (x % 2 ^ 64 + 2 ^ 64 - 1) % 2 ^ 64 ≡ x - 1
small_bound x low high = omega (arith, low, high)

zero_bound : (x : ℕ) → x % 2 ^ 64 ≡ 0 → (x % 2 ^ 64 + 2 ^ 64 - 1) % 2 ^ 64 ≡ 2 ^ 64 - 1
zero_bound x h = omega (arith, h)

pow_wraps : (j : ℕ) → 2 ^ (j + 64) % 2 ^ 64 ≡ 0
pow_wraps zero = refl
pow_wraps (suc j) =
    let unfold_pow : 2 ^ (suc j + 64) ≡ 2 ^ (j + 64) + 2 ^ (j + 64) =
      ap (λ k. 2 ^ k) (omega arith) ∙ two-pow-succ (j + 64) in
    omega (arith, unfold_pow, pow_wraps j)

pub retry_bound_lem : (n : ℕ) → 1 ≤ n → retry_bound n ≡ (if ltb n 64 then 2 ^ n - 1 else 2 ^ 64 - 1)
unfolding retry_bound
retry_bound_lem n low =
    by_test (λ (x : ℕ). (2 ^ n % 2 ^ 64 + 2 ^ 64 - 1) % 2 ^ 64 ≡ x) (ltb n 64)
      (λ few.
        small_bound (2 ^ n) (one-le-pow n 2 (omega arith))
          (pow-le-pow_right {n = 2} (omega arith) {i = n} {j = 63} (ground (arith, few))))
      (λ many.
        zero_bound (2 ^ n)
          (subst (λ m. 2 ^ m % 2 ^ 64 ≡ 0) (ground (arith, many)) (pow_wraps (n - 64))))

-- The range that the delay is drawn from is not empty.
pub retry_bound_positive : (n : ℕ) → 1 ≤ n → (retry_bound n == 0) ≡ false
retry_bound_positive n low =
    ground
      (arith, retry_bound_lem n low, pow-le-pow_right {n = 2} (omega arith) {i = 1} {j = n} low)

streak_positive : (is_err : Bool) (before : List Bool) → 1 ≤ streak (is_err ∷ before)
streak_positive true before = omega arith
streak_positive false before = omega arith

-- The delay after an end of a session, in a history of at most `2 ^ 32 - 2` ends, is drawn below `2 ^ n - 1` retry
-- timeouts, where `n` is the number of failures in a row, with the end before them that was no error, if there is one.
-- This is the exponential back-off that is meant as long as `n` is at most 63. From 64 on the power has wrapped around
-- to zero, and the bound is the largest `u64`.
pub backoff_bound :
    (is_err : Bool) (before : List Bool)
    → length (is_err ∷ before) ≤ 2 ^ 32 - 2
    → let n = streak (is_err ∷ before) in
      retry_bound (retry_count (is_err ∷ before)) ≡ (if ltb n 64 then 2 ^ n - 1 else 2 ^ 64 - 1)
backoff_bound is_err before few =
    ap retry_bound (retry_count-streak (is_err ∷ before) few)
    ∙ retry_bound_lem (streak (is_err ∷ before)) (streak_positive is_err before)
