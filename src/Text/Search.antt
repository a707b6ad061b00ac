-- ===== src/Text/Search.antt =====
-- `starts_with`, `find`, `rfind`, `contains` and `replace` of `str`, for the patterns that the
-- protocol searches for.
use tws_rust.Prelude.{
  ℕ, zero, suc, [], ◌∷◌, ◌++◌, ◌≡◌, refl, Bool, true, false, ◌&&◌, ◌||◌, Option, none, some, ◌==◌,
  if◌then◌else◌, arith, length, take, drop,
}
use tws_rust.Text.Bytes.{Bytes, Lacks}

unfoldable pub starts_with : Bytes → Bytes → Bool
starts_with s [] = true
starts_with [] (p ∷ ps) = false
starts_with (c ∷ s) (p ∷ ps) = c == p && starts_with s ps

-- `s.find(c)` for a one-byte pattern.
unfoldable pub find : ℕ → Bytes → Option ℕ
find c [] = none
find c (x ∷ s) =
    let later = find c s in
    if x == c then some 0 else elim later [ none ↦ none | some i ↦ some (suc i) ]

-- `s.rfind(c)`.
unfoldable pub rfind : ℕ → Bytes → Option ℕ
rfind c [] = none
rfind c (x ∷ s) = elim (rfind c s) [
  | some i ↦ some (suc i)
  | none ↦ if x == c then some 0 else none
]

unfoldable pub contains : ℕ → Bytes → Bool
contains c [] = false
contains c (x ∷ s) = x == c || contains c s

-- `s.replace(c, "")`.
unfoldable pub remove : ℕ → Bytes → Bytes
remove c [] = []
remove c (x ∷ s) = let rest = remove c s in if x == c then rest else x ∷ rest

pub starts_with-append : (p s : Bytes) → starts_with (p ++ s) p ≡ true
unfolding starts_with
starts_with-append [] s = refl
starts_with-append (c ∷ p) s = ground (arith, starts_with-append p s)

-- The first separator is found behind a text that lacks it.
pub find-append : (c : ℕ) (p s : Bytes) → Lacks c p → find c (p ++ c ∷ s) ≡ some (length p)
unfolding find
find-append c [] s h = ground arith
find-append c (x ∷ p) s (hx, hp) = ground (arith, find-append c p s hp)

-- What is found splits the text.
pub find-eq-some :
    (c : ℕ) (s : Bytes) (i : ℕ) → find c s ≡ some i → s ≡ take i s ++ c ∷ drop (suc i) s
unfolding find
find-eq-some c [] i h = cc
find-eq-some c (x ∷ s) zero h = ground arith
find-eq-some c (x ∷ s) (suc i) h = ground (arith, find-eq-some c s i)

pub find-Lacks : (c : ℕ) (s : Bytes) (i : ℕ) → find c s ≡ some i → Lacks c (take i s)
unfolding find
find-Lacks c [] i h = cc
find-Lacks c (x ∷ s) zero h = tt
find-Lacks c (x ∷ s) (suc i) h = ground (arith, find-Lacks c s i)

pub remove_none : (c : ℕ) (s : Bytes) → Lacks c s → remove c s ≡ s
unfolding remove
remove_none c [] h = refl
remove_none c (x ∷ s) (hx, hs) = ground (arith, remove_none c s hs)
