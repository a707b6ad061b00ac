-- ===== src/Text/Split.antt =====
-- `split`, `split_terminator` and `lines` of `str`.
use tws_rust.Prelude.{ℕ, List, [], ◌∷◌, ◌++◌, map, ◌≡◌, refl, ◌≢◌, ◌==◌, if◌then◌else◌, arith}
use tws_rust.Text.Bytes.{Bytes, Lacks, newline, carriage_return}

-- Put a byte in front of the first part.
abbrev pub extend : ℕ → List Bytes → List Bytes
extend x [] = (x ∷ []) ∷ []
extend x (p ∷ ps) = (x ∷ p) ∷ ps

-- `s.split(c)`: there is always a last part, which may be empty.
unfoldable pub split : ℕ → Bytes → List Bytes
split c [] = [] ∷ []
split c (x ∷ s) = let rest = split c s in if x == c then [] ∷ rest else extend x rest

-- `s.split_terminator(c)`: no part behind a final separator.
unfoldable pub split_terminator : ℕ → Bytes → List Bytes
split_terminator c [] = []
split_terminator c (x ∷ s) =
    let rest = split_terminator c s in if x == c then [] ∷ rest else extend x rest

-- A line loses one carriage return at its end.
unfoldable pub strip_return : Bytes → Bytes
strip_return [] = []
strip_return (x ∷ []) = if x == carriage_return then [] else x ∷ []
strip_return (x ∷ y ∷ s) = x ∷ strip_return (y ∷ s)

unfoldable pub lines : Bytes → List Bytes
unfolding strip_return split_terminator
lines s = map strip_return (split_terminator newline s)

split-Lacks : (c : ℕ) (p : Bytes) → Lacks c p → split c p ≡ p ∷ []
unfolding split
split-Lacks c [] h = refl
split-Lacks c (x ∷ p) (hx, hp) = ground (arith, split-Lacks c p hp)

pub split_last : (c : ℕ) (p : Bytes) → Lacks c p → split c p ≡ p ∷ []
split_last c p h = split-Lacks c p h

pub split-append : (c : ℕ) (p s : Bytes) → Lacks c p → split c (p ++ c ∷ s) ≡ p ∷ split c s
unfolding split
split-append c [] s h = ground arith
split-append c (x ∷ p) s (hx, hp) = ground (arith, split-append c p s hp)

pub split_terminator-append :
    (c : ℕ) (p s : Bytes) → Lacks c p → split_terminator c (p ++ c ∷ s) ≡ p ∷ split_terminator c s
unfolding split_terminator
split_terminator-append c [] s h = ground arith
split_terminator-append c (x ∷ p) s (hx, hp) = ground (arith, split_terminator-append c p s hp)

pub split_terminator_last :
    (c x : ℕ) (p : Bytes) → Lacks c (x ∷ p) → split_terminator c (x ∷ p) ≡ (x ∷ p) ∷ []
unfolding split_terminator
split_terminator_last c x [] h = ground arith
split_terminator_last c x (y ∷ p) (hx, hp) = ground (arith, split_terminator_last c y p hp)

-- The text does not end in a carriage return.
abbrev pub EndsPlain : Bytes → Type 0
EndsPlain [] = Unit {0}
EndsPlain (x ∷ []) = x ≢ carriage_return
EndsPlain (x ∷ y ∷ s) = EndsPlain (y ∷ s)

pub strip_return_plain : (s : Bytes) → EndsPlain s → strip_return s ≡ s
unfolding strip_return
strip_return_plain [] h = refl
strip_return_plain (x ∷ []) h = ground arith
strip_return_plain (x ∷ y ∷ s) h = rw (strip_return_plain (y ∷ s) h)

-- The lines of a text with a line in front.
pub lines-append :
    (p s : Bytes) → Lacks newline p → lines (p ++ newline ∷ s) ≡ strip_return p ∷ lines s
unfolding lines
lines-append p s h = rw (split_terminator-append newline p s h)

pub lines_last :
    (x : ℕ) (p : Bytes) → Lacks newline (x ∷ p) → EndsPlain (x ∷ p) → lines (x ∷ p) ≡ (x ∷ p) ∷ []
unfolding lines
lines_last x p h k = rw (split_terminator_last newline x p h, strip_return_plain (x ∷ p) k)

pub EndsPlain-append : (p : Bytes) (x : ℕ) (s : Bytes) → EndsPlain (x ∷ s) → EndsPlain (p ++ x ∷ s)
EndsPlain-append [] x s h = h
EndsPlain-append (a ∷ []) x s h = h
EndsPlain-append (a ∷ b ∷ p) x s h = EndsPlain-append (b ∷ p) x s h
