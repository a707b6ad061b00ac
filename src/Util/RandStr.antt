-- ===== src/Util/RandStr.antt =====
-- `rand_str` of src/protocol/util.rs. What the random generator draws is a list of numbers.
use tws_rust.Prelude.{
  ℕ, zero, suc, ◌<◌, ◌≤◌, List, [], ◌∷◌, Option, none, some, length, get_elem?, All, ◌≡◌, refl,
  arith, ap,
}
use tws_rust.Text.Bytes.{Bytes, codes, IsAscii, Lacks, newline}
use tws_rust.Text.Utf8.{is_utf8-ascii}
use tws_rust.Text.Split.{EndsPlain}
use tws_rust.Protocol.ConnId.{IsConnId}

abbrev pub dictionary : Bytes
dictionary = codes "abcdefghijklmnopqrstuvwxyzABCDEFGHIJKLMNOPQRSTUVWXYZ1234567890"

-- One byte for each draw; an index outside the dictionary is a panic.
unfoldable pub rand_str : List ℕ → Option Bytes
rand_str [] = some []
rand_str (i ∷ draws) =
    let rest = rand_str draws in
    elim (get_elem? dictionary i) [
      | none ↦ none
      | some b ↦ elim rest [ none ↦ none | some s ↦ some (b ∷ s) ]
    ]

IsPlainByte : ℕ → Type 0
IsPlainByte b = (b'0' ≤ b) × (b ≤ b'z')

get_elem?-All :
    {P : ℕ → Type 0} (s : Bytes) (i : ℕ)
    → All P s
    → i < length s
    → (b : ℕ) × (get_elem? s i ≡ some b) × P b
get_elem?-All [] i h k = absurd (omega arith)
get_elem?-All (x ∷ s) zero h k = (x, refl, h.0)
get_elem?-All (x ∷ s) (suc i) h k = get_elem?-All s i h.1 (omega arith)

rand_str_bytes :
    (draws : List ℕ)
    → All (λ i. i < 62) draws
    → (s : Bytes) × (rand_str draws ≡ some s) × (length s ≡ length draws) × All IsPlainByte s
unfolding rand_str IsPlainByte
rand_str_bytes [] h = ([], refl, refl, tt)
rand_str_bytes (i ∷ draws) (hi, hs) =
    let (b, found, plain) =
      get_elem?-All {P = λ b. (b'0' ≤ b) × (b ≤ b'z')} dictionary i (omega arith) hi in
    let (s, rest, len, all) = rand_str_bytes draws hs in
    (b ∷ s, ground (arith, found, rest), ap suc len, (plain, all))

plain-IsAscii : (s : Bytes) → All IsPlainByte s → IsAscii s
unfolding IsPlainByte
plain-IsAscii [] h = tt
plain-IsAscii (x ∷ s) h = (omega arith, plain-IsAscii s h.1)

plain-Lacks : (c : ℕ) (s : Bytes) → c < b'0' → All IsPlainByte s → Lacks c s
unfolding IsPlainByte
plain-Lacks c [] k h = tt
plain-Lacks c (x ∷ s) k h = (omega arith, plain-Lacks c s k h.1)

plain-EndsPlain : (s : Bytes) → All IsPlainByte s → EndsPlain s
unfolding IsPlainByte
plain-EndsPlain [] h = tt
plain-EndsPlain (x ∷ []) h = omega arith
plain-EndsPlain (x ∷ y ∷ s) h = plain-EndsPlain (y ∷ s) h.1

-- Six draws within the dictionary always give an identifier that the packets can carry.
pub rand_str-IsConnId :
    (draws : List ℕ)
    → length draws ≡ 6
    → All (λ i. i < 62) draws
    → (id : Bytes) × (rand_str draws ≡ some id) × IsConnId id
rand_str-IsConnId draws six h =
    let (id, made, len, plain) = rand_str_bytes draws h in
    (
      id,
      made,
      record {
        six = omega arith;
        utf8 = is_utf8-ascii id (plain-IsAscii id plain);
        no_space = plain-Lacks b' ' id (omega arith) plain;
        one_line = plain-Lacks newline id (omega arith) plain;
        plain = plain-EndsPlain id plain;
      },
    )
