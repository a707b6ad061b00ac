-- ===== src/Text/Bytes.antt =====
-- Texts as lists of bytes, and equality of texts.
use tws_rust.Prelude.{
  ℕ, List, String, [], ◌∷◌, ◌≡◌, refl, ◌≢◌, Bool, true, false, ◌&&◌, ◌==◌, arith, All, ◌<◌, ◌↔◌, ap,
  ◌∙◌,
}
use tws_rust.Prelude.Equality.{Eq}
use Prim.Native.Char.{code}

abbrev pub Bytes : Type 0
Bytes = List ℕ

-- The bytes of an ASCII literal.
abbrev pub codes : String → Bytes
codes String.[] = []
codes (String.◌∷◌ c s) = code c ∷ codes s

abbrev pub newline : ℕ
newline = 10

abbrev pub carriage_return : ℕ
carriage_return = 13

unfoldable pub bytes_eq : Bytes → Bytes → Bool
bytes_eq [] [] = true
bytes_eq [] (y ∷ ys) = false
bytes_eq (x ∷ xs) [] = false
bytes_eq (x ∷ xs) (y ∷ ys) = x == y && bytes_eq xs ys

pub bytes_eq_refl : (s : Bytes) → bytes_eq s s ≡ true
unfolding bytes_eq
bytes_eq_refl [] = refl
bytes_eq_refl (x ∷ xs) = ground (arith, bytes_eq_refl xs)

pub bytes_eq→eq : (s t : Bytes) → bytes_eq s t ≡ true → s ≡ t
unfolding bytes_eq
bytes_eq→eq [] [] h = refl
bytes_eq→eq [] (y ∷ ys) h = cc
bytes_eq→eq (x ∷ xs) [] h = cc
bytes_eq→eq (x ∷ xs) (y ∷ ys) h = ground (arith, bytes_eq→eq xs ys)

-- A byte does not occur in a text.
abbrev pub Lacks : ℕ → Bytes → Type 0
Lacks b = All (λ c. c ≢ b)

abbrev pub IsAscii : Bytes → Type 0
IsAscii = All (λ c. c < 128)

pub bytes_eq_iff : (s t : Bytes) → (bytes_eq s t ≡ true) ↔ (s ≡ t)
bytes_eq_iff s t = (bytes_eq→eq s t, λ e. ap (λ u. bytes_eq u t) e ∙ bytes_eq_refl t)

instance abbrev pub bytes_key : Eq Bytes
bytes_key = record { beq = bytes_eq; beq_iff = bytes_eq_iff }
