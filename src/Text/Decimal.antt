-- ===== src/Text/Decimal.antt =====
-- Decimal numbers: the `Display` of `u8`, `u16` and `i64`, and `str::parse::<i64>`.
pub mod RoundTrip
pub mod Unsigned
use tws_rust.Prelude.{
  ℕ, zero, suc, ◌+◌, ◌-◌, ◌*◌, ◌/◌, ◌%◌, ◌^◌, ◌≤◌, ◌<◌, List, [], ◌∷◌, ◌++◌, ◌≡◌, refl, Bool, true,
  false, ◌||◌, Option, none, some, ltb, ◌==◌, if◌then◌else◌, arith, All,
}
use tws_rust.Prelude.Int.{ℤ, pos, negsuc}
use tws_rust.Text.Bytes.{Bytes, Lacks}

-- The digits of a number with at most `f` of them.
unfoldable pub digits : ℕ → ℕ → Bytes
digits zero n = []
digits (suc f) n =
    let front = digits f (n / 10) in
    if ltb n 10 then (b'0' + n) ∷ [] else front ++ (b'0' + n % 10) ∷ []

-- `Display` of an unsigned number of at most 64 bits, which has at most twenty digits.
unfoldable pub show_ℕ : ℕ → Bytes
unfolding digits
show_ℕ n = digits 20 n

-- `Display` of an `i64`.
unfoldable pub show_i64 : ℤ → Bytes
unfolding show_ℕ
show_i64 (pos n) = show_ℕ n
show_i64 (negsuc n) = b'-' ∷ show_ℕ (suc n)

abbrev pub is_digit : ℕ → Bool
is_digit c = elim (ltb c b'0') [ true ↦ false | false ↦ ltb c 58 ]

-- The checked accumulation of `from_str_radix`, with the greatest magnitude allowed.
unfoldable pub accumulate : ℕ → ℕ → Bytes → Option ℕ
accumulate bound acc [] = some acc
accumulate bound acc (c ∷ s) =
    let acc' = acc * 10 + (c - b'0') in
    let rest = accumulate bound acc' s in
    if is_digit c then (if ltb bound acc' then none else rest) else none

abbrev pub negate : ℕ → ℤ
negate zero = pos 0
negate (suc n) = negsuc n

-- `str::parse::<i64>()`
unfoldable pub parse_i64 : Bytes → Option ℤ
unfolding accumulate
parse_i64 [] = none
parse_i64 (c ∷ s) =
    if c == b'-'
    then (elim s [
      | [] ↦ none
      | d ∷ s' ↦ elim (accumulate (2 ^ 63) 0 (d ∷ s')) [ none ↦ none | some n ↦ some (negate n) ]
    ])
    else if c == b'+'
    then (elim s [
      | [] ↦ none
      | d ∷ s' ↦ elim (accumulate (2 ^ 63 - 1) 0 (d ∷ s')) [ none ↦ none | some n ↦ some (pos n) ]
    ])
    else (elim (accumulate (2 ^ 63 - 1) 0 (c ∷ s)) [ none ↦ none | some n ↦ some (pos n) ])
