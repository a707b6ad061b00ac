-- ===== src/Text/Utf8.antt =====
-- `str::from_utf8`: the byte sequences that the standard library accepts.
use tws_rust.Prelude.{
  ℕ, List, [], ◌∷◌, ◌++◌, ◌≡◌, refl, Bool, true, false, ◌&&◌, Option, none, some, ltb, leb, ◌==◌,
  if◌then◌else◌, arith, Result, ok, err, String, Option-cases, inl, inr,
}
use tws_rust.Text.Bytes.{Bytes, IsAscii}

-- An inclusive range of bytes.
abbrev Range : Type 0
Range = ℕ × ℕ

abbrev continuation : Range
continuation = (0x80, 0xbf)

-- The ranges that must follow a first byte.
unfoldable pub following : ℕ → Option (List Range)
following b =
    if ltb b 0x80
    then some []
    else if ltb b 0xc2
    then none
    else if leb b 0xdf
    then some (continuation ∷ [])
    else if b == 0xe0
    then some ((0xa0, 0xbf) ∷ continuation ∷ [])
    else if b == 0xed
    then some ((0x80, 0x9f) ∷ continuation ∷ [])
    else if leb b 0xef
    then some (continuation ∷ continuation ∷ [])
    else if b == 0xf0
    then some ((0x90, 0xbf) ∷ continuation ∷ continuation ∷ [])
    else if leb b 0xf3
    then some (continuation ∷ continuation ∷ continuation ∷ [])
    else if b == 0xf4
    then some ((0x80, 0x8f) ∷ continuation ∷ continuation ∷ [])
    else none

-- `scan rs s`: the ranges `rs` are still to come before the next first byte.
unfoldable pub scan : List Range → Bytes → Bool
unfolding following
scan [] [] = true
scan (r ∷ rs) [] = false
scan ((lo, hi) ∷ rs) (b ∷ s) = leb lo b && leb b hi && scan rs s
scan [] (b ∷ s) = elim (following b) [ none ↦ false | some rs ↦ scan rs s ]

unfoldable pub is_utf8 : Bytes → Bool
unfolding scan
is_utf8 s = scan [] s

-- `str::from_utf8(bytes).chain_err(|| message)`
unfoldable pub from_utf8 : Bytes → String → Result Bytes
unfolding is_utf8
from_utf8 s message = if is_utf8 s then ok s else err message

following_ascii : (b : ℕ) → ltb b 0x80 ≡ true → following b ≡ some []
unfolding following
following_ascii b h = rw h

pub is_utf8-ascii : (s : Bytes) → IsAscii s → is_utf8 s ≡ true
unfolding is_utf8
is_utf8-ascii [] h = refl
is_utf8-ascii (b ∷ s) (hb, hs) = ground (arith, is_utf8-ascii s hs)

scan-append : (rs : List Range) (s t : Bytes) → scan rs s ≡ true → scan rs (s ++ t) ≡ scan [] t
unfolding scan
scan-append [] [] t h = refl
scan-append (r ∷ rs) [] t h = cc
scan-append ((lo, hi) ∷ rs) (b ∷ s) t h = ground (arith, scan-append rs s t)
scan-append [] (b ∷ s) t h = elim (Option-cases (following b)) [
  | inl e ↦ absurd (ground arith)
  | inr (rs, e) ↦ ground (arith, scan-append rs s t)
]

-- Behind a whole text the reading starts afresh.
pub is_utf8-append : (s t : Bytes) → is_utf8 s ≡ true → is_utf8 (s ++ t) ≡ is_utf8 t
unfolding is_utf8
is_utf8-append s t h = scan-append [] s t h

pub from_utf8-append :
    (s t : Bytes) (message : String)
    → is_utf8 s ≡ true
    → is_utf8 t ≡ true
    → from_utf8 (s ++ t) message ≡ ok (s ++ t)
unfolding from_utf8
from_utf8-append s t message h k = rw (is_utf8-append s t h, k)

pub from_utf8-eq-ok :
    (s : Bytes) (message : String) {t : Bytes}
    → from_utf8 s message ≡ ok t
    → (t ≡ s) × (is_utf8 s ≡ true)
unfolding from_utf8
from_utf8-eq-ok s message h = ground arith
