-- ===== src/Map/Distinct.antt =====
-- A map has each key once, and every operation keeps that.
use tws_rust.Prelude.{Bool, true, not, ◌&&◌, [], ◌∷◌, ◌≡◌, refl, arith, none}
use tws_rust.Prelude.Equality.{Eq, beq_comm}
use tws_rust.Map.{Map, get, contains_key, insert, remove, modify}
use tws_rust.Map.Laws.{
  contains_key-get, contains_key-insert, contains_key-remove_key, contains_key-modify,
}

module _ {K V : Type 0} ⦃e : Eq K⦄ where
  unfoldable pub distinct : Map K V → Bool
  distinct [] = true
  distinct ((k, v) ∷ m) = not (contains_key k m) && distinct m

  -- The first entry's key is not in the rest.
  pub get-rest : (k : K) (v : V) (m : Map K V) → distinct ((k, v) ∷ m) ≡ true → get k m ≡ none
  unfolding distinct
  get-rest k v m h = ground (arith, contains_key-get k m)

  pub distinct-insert :
      (k : K) (v : V) (m : Map K V) → distinct m ≡ true → distinct (insert k v m) ≡ true
  unfolding distinct insert contains_key
  distinct-insert k v [] h = refl
  distinct-insert k v ((j, w) ∷ m) h =
      ground (arith, distinct-insert k v m, contains_key-insert k j v m, beq_comm j k)

  pub distinct-remove : (k : K) (m : Map K V) → distinct m ≡ true → distinct (remove k m) ≡ true
  unfolding distinct remove
  distinct-remove k [] h = refl
  distinct-remove k ((j, w) ∷ m) h =
      ground (arith, distinct-remove k m, contains_key-remove_key k j m)

  pub distinct-modify :
      (k : K) (f : V → V) (m : Map K V) → distinct m ≡ true → distinct (modify k f m) ≡ true
  unfolding distinct modify
  distinct-modify k f [] h = refl
  distinct-modify k f ((j, w) ∷ m) h =
      ground (arith, distinct-modify k f m, contains_key-modify j k f m)
