-- ===== src/Prelude/Equality.antt =====
-- Equality of keys, `PartialEq` of the source, as a test with its law.
use mathlib.Core.Path.{◌≡◌, refl, sym, ap, ◌∙◌}
use mathlib.Core.Logic.{◌↔◌, inl, inr}
use mathlib.Core.Bool.{Bool, true}
use Prim.Native.Nat.{ℕ}
use native.Mathlib.Omega.{arith}
use tws_rust.Prelude.Tests.{◌==◌, ==_iff, Bool-cases}

pub record Eq {ℓ} (A : Type ℓ) : Type ℓ where
  pub beq : A → A → Bool
  pub beq_iff : (a b : A) → (beq a b ≡ true) ↔ (a ≡ b)

instance abbrev pub nat_key : Eq ℕ
nat_key = record { beq = ◌==◌; beq_iff = ==_iff }

module _ {ℓ} {A : Type ℓ} ⦃e : Eq A⦄ where
  pub beq_refl : (a : A) → e.beq a a ≡ true
  beq_refl a = (e.beq_iff a a).1 refl

  pub beq_comm : (a b : A) → e.beq a b ≡ e.beq b a
  beq_comm a b = elim (Bool-cases (e.beq a b)) [
    | inl same ↦ same ∙ sym ((e.beq_iff b a).1 (sym ((e.beq_iff a b).0 same)))
    | inr other ↦ elim (Bool-cases (e.beq b a)) [
      | inr far ↦ other ∙ sym far
      | inl near ↦
          let clash : e.beq a b ≡ true = (e.beq_iff a b).1 (sym ((e.beq_iff b a).0 near)) in
          absurd (ground arith)
    ]
  ]

  -- What equals a third is equal to what equals it.
  pub beq_trans : (a b c : A) → e.beq a b ≡ true → e.beq a c ≡ e.beq b c
  beq_trans a b c h = ap (λ x. e.beq x c) ((e.beq_iff a b).0 h)
