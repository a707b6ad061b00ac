-- ===== src/Text/Decimal/Unsigned.antt =====
-- `str::parse::<u64>()`, which is `str::parse::<usize>()` on a 64-bit machine.
use tws_rust.Prelude.{
  ℕ, ◌-◌, ◌^◌, ◌<◌, [], ◌∷◌, Option, none, some, ◌==◌, if◌then◌else◌, ◌≡◌, arith, All, subst,
}
use tws_rust.Text.Bytes.{Bytes}
use tws_rust.Text.Decimal.{show_ℕ, accumulate}
use tws_rust.Text.Decimal.RoundTrip.{IsDigit, show_ℕ-IsDigit, show_ℕ-cons, accumulate-show_ℕ}

unfoldable pub parse_u64 : Bytes → Option ℕ
unfolding accumulate
parse_u64 [] = none
parse_u64 (c ∷ s) =
    if c == b'+'
    then (elim s [ [] ↦ none | d ∷ s' ↦ accumulate (2 ^ 64 - 1) 0 (d ∷ s') ])
    else accumulate (2 ^ 64 - 1) 0 (c ∷ s)

parse_u64_digit :
    (c : ℕ) (s : Bytes) → IsDigit c → parse_u64 (c ∷ s) ≡ accumulate (2 ^ 64 - 1) 0 (c ∷ s)
unfolding parse_u64
parse_u64_digit c s h = ground arith

-- A number of 64 bits is read back from its print.
pub parse_u64-show_ℕ : (n : ℕ) → n < 2 ^ 64 → parse_u64 (show_ℕ n) ≡ some n
parse_u64-show_ℕ n h =
    let (c, s, e) = show_ℕ-cons n in
    let digit : All IsDigit (c ∷ s) = subst (All IsDigit) e (show_ℕ-IsDigit n) in
    let whole : accumulate (2 ^ 64 - 1) 0 (c ∷ s) ≡ some n =
      rw (← e) (accumulate-show_ℕ (2 ^ 64 - 1) n (omega arith) (omega arith)) in
    rw e (rw (parse_u64_digit c s digit.0, whole))
