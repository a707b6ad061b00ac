-- ===== src/Map.antt =====
-- `HashMap<K, V>` as a list of keys and values: its order is the order in which the map is iterated,
-- about which nothing is assumed.
pub mod Laws
pub mod Distinct
use tws_rust.Prelude.{ℕ, List, [], ◌∷◌, Bool, true, false, ◌||◌, Option, none, some, if◌then◌else◌}
use tws_rust.Prelude.Equality.{Eq}

abbrev pub Map : Type 0 → Type 0 → Type 0
Map K V = List (K × V)

module _ {K V : Type 0} ⦃e : Eq K⦄ where
  unfoldable pub get : K → Map K V → Option V
  get k [] = none
  get k ((j, v) ∷ m) = if e.beq j k then some v else get k m

  unfoldable pub contains_key : K → Map K V → Bool
  contains_key k [] = false
  contains_key k ((j, v) ∷ m) = e.beq j k || contains_key k m

  unfoldable pub insert : K → V → Map K V → Map K V
  insert k v [] = (k, v) ∷ []
  insert k v ((j, w) ∷ m) = if e.beq j k then (j, v) ∷ m else (j, w) ∷ insert k v m

  -- Every entry under the key goes; a map has one at most.
  unfoldable pub remove : K → Map K V → Map K V
  remove k [] = []
  remove k ((j, v) ∷ m) = let rest = remove k m in if e.beq j k then rest else (j, v) ∷ rest

  -- `m.get_mut(k).map_or((), |v| f(v))`
  unfoldable pub modify : K → (V → V) → Map K V → Map K V
  modify k f [] = []
  modify k f ((j, v) ∷ m) = if e.beq j k then (j, f v) ∷ m else (j, v) ∷ modify k f m

  -- `for (_, v) in m { f(v) }`
  unfoldable pub modify_all : (V → V) → Map K V → Map K V
  modify_all f [] = []
  modify_all f ((j, v) ∷ m) = (j, f v) ∷ modify_all f m
