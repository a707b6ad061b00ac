-- ===== src/Prelude/Int.antt =====
-- Signed integers over the native numbers, and the arithmetic of an `i64`.
use tws_rust.Prelude.Tests.{ltb, leb, if◌then◌else◌}
use Prim.Native.Nat.{ℕ, suc, ◌+◌, ◌-◌, ◌%◌, ◌^◌, ◌<◌}
use mathlib.Core.Path.{◌≡◌}
use mathlib.Core.Bool.{Bool}
use native.Mathlib.Omega.{arith}

-- `negsuc n` is -(n + 1).
pub data ℤ : Type 0 where
  pos : ℕ → ℤ
  negsuc : ℕ → ℤ

abbrev pub pos_part : ℤ → ℕ
pos_part (pos n) = n
pos_part (negsuc n) = 0

abbrev pub neg_part : ℤ → ℕ
neg_part (pos n) = 0
neg_part (negsuc n) = suc n

-- a - b, as an integer.
abbrev pub sub_ℕ : ℕ → ℕ → ℤ
sub_ℕ a b = if leb b a then pos (a - b) else negsuc (b - a - 1)

infixl 65 ◌-ℤ◌
unfoldable pub ◌-ℤ◌ : ℤ → ℤ → ℤ
a -ℤ b = sub_ℕ (pos_part a + neg_part b) (neg_part a + pos_part b)

abbrev pub ltb_ℤ : ℤ → ℤ → Bool
ltb_ℤ a b = ltb (pos_part a + neg_part b) (pos_part b + neg_part a)

-- The residue of an integer modulo 2^64.
abbrev pub residue_64 : ℤ → ℕ
residue_64 (pos n) = n % 2 ^ 64
residue_64 (negsuc n) = 2 ^ 64 - 1 - n % 2 ^ 64

-- The `i64` with a given bit pattern.
abbrev pub of_bits_64 : ℕ → ℤ
of_bits_64 m = if ltb m (2 ^ 63) then pos m else negsuc (2 ^ 64 - 1 - m)

-- `a - b` on `i64`, which wraps around in a release build.
unfoldable pub sub_i64 : ℤ → ℤ → ℤ
unfolding ◌-ℤ◌
sub_i64 a b = of_bits_64 (residue_64 (a -ℤ b))

-- Between times that are not negative there is no overflow.
pub sub_i64-pos : (a b : ℕ) → a < 2 ^ 63 → b < 2 ^ 63 → sub_i64 (pos a) (pos b) ≡ sub_ℕ a b
unfolding sub_i64
sub_i64-pos a b h k = ground arith
