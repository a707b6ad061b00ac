-- ===== src/Text/Decimal/RoundTrip.antt =====
-- Reading back a decimal print.
use native.Mathlib.Nat.{pow-suc}
use tws_rust.Prelude.{
  ℕ, zero, suc, ◌+◌, ◌-◌, ◌*◌, ◌/◌, ◌%◌, ◌^◌, ◌≤◌, ◌<◌, [], ◌∷◌, ◌++◌, ◌≡◌, none, some, ltb, arith,
  All, All-append, append_assoc, append-nil, Bool-cases, inl, inr, subst, ◌∙◌,
}
use tws_rust.Prelude.Int.{pos}
use tws_rust.Text.Bytes.{Bytes}
use tws_rust.Text.Decimal.{digits, show_ℕ, show_i64, accumulate, parse_i64}

abbrev pub IsDigit : ℕ → Type 0
IsDigit c = (b'0' ≤ c) × (c ≤ b'9')

pub digits-IsDigit : (f n : ℕ) → All IsDigit (digits f n)
unfolding digits
digits-IsDigit zero n = tt
digits-IsDigit (suc f) n = elim (Bool-cases (ltb n 10)) [
  | inl small ↦ rw small (ground arith, tt)
  | inr large ↦
      rw large
        (All-append IsDigit (digits f (n / 10)) _ (digits-IsDigit f (n / 10)) (omega arith, tt))
]

pub show_ℕ-IsDigit : (n : ℕ) → All IsDigit (show_ℕ n)
unfolding show_ℕ
show_ℕ-IsDigit n = digits-IsDigit 20 n

pub digits-cons : (f n : ℕ) → (c : ℕ) × (s : Bytes) × (digits (suc f) n ≡ c ∷ s)
unfolding digits
digits-cons zero n = elim (Bool-cases (ltb n 10)) [
  | inl small ↦ (b'0' + n, [], rw small)
  | inr large ↦ (b'0' + n % 10, [], rw large)
]
digits-cons (suc f) n = elim (Bool-cases (ltb n 10)) [
  | inl small ↦ (b'0' + n, [], rw small)
  | inr large ↦
      let (c, s, e) = digits-cons f (n / 10) in (c, s ++ (b'0' + n % 10) ∷ [], rw large (rw e))
]

pub show_ℕ-cons : (n : ℕ) → (c : ℕ) × (s : Bytes) × (show_ℕ n ≡ c ∷ s)
unfolding show_ℕ
show_ℕ-cons n = digits-cons 19 n

accumulate_digit :
    (bound acc c m : ℕ) (s : Bytes)
    → c < 10
    → acc * 10 + c ≡ m
    → m ≤ bound
    → accumulate bound acc ((b'0' + c) ∷ s) ≡ accumulate bound m s
unfolding accumulate
accumulate_digit bound acc c m s h e k = ground arith

-- The digits of `n`, read behind nothing, give `n`.
accumulate-digits :
    (bound f n : ℕ) (s : Bytes)
    → n < 10 ^ f
    → n ≤ bound
    → accumulate bound 0 (digits f n ++ s) ≡ accumulate bound n s
unfolding digits
accumulate-digits bound zero n s h k = let e : n ≡ 0 = omega arith in rw e
accumulate-digits bound (suc f) n s h k =
    let tenth : n / 10 < 10 ^ f = omega (arith, pow-suc 10 f) in
    let front = accumulate-digits bound f (n / 10) ((b'0' + n % 10) ∷ s) tenth (omega arith) in
    elim (Bool-cases (ltb n 10)) [
      | inl small ↦ rw small (accumulate_digit bound 0 n n s (ground arith) (omega arith) k)
      | inr large ↦
          rw (large, append_assoc)
            (front ∙ accumulate_digit bound (n / 10) (n % 10) n s (omega arith) (omega arith) k)
    ]

pub accumulate-show_ℕ :
    (bound n : ℕ) → n ≤ bound → bound < 10 ^ 20 → accumulate bound 0 (show_ℕ n) ≡ some n
unfolding show_ℕ accumulate
accumulate-show_ℕ bound n h k =
    rw (← append-nil (digits 20 n)) (accumulate-digits bound 20 n [] (omega arith) h)

parse_i64_digit :
    (c : ℕ) (s : Bytes)
    → IsDigit c
    → parse_i64 (c ∷ s)
      ≡ (elim (accumulate (2 ^ 63 - 1) 0 (c ∷ s)) [ none ↦ none | some n ↦ some (pos n) ])
unfolding parse_i64
parse_i64_digit c s h = ground arith

-- A time that is not negative is read back from its print.
pub parse_i64-show_i64 : (n : ℕ) → n < 2 ^ 63 → parse_i64 (show_i64 (pos n)) ≡ some (pos n)
unfolding show_i64
parse_i64-show_i64 n h =
    let (c, s, e) = show_ℕ-cons n in
    let digit : All IsDigit (c ∷ s) = subst (All IsDigit) e (show_ℕ-IsDigit n) in
    let whole : accumulate (2 ^ 63 - 1) 0 (c ∷ s) ≡ some n =
      rw (← e) (accumulate-show_ℕ (2 ^ 63 - 1) n (omega arith) (omega arith)) in
    rw e (rw (parse_i64_digit c s digit.0, whole))
