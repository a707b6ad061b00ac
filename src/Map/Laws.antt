-- ===== src/Map/Laws.antt =====
-- The laws of the map operations.
use tws_rust.Prelude.{
  [], ◌∷◌, true, false, ◌||◌, none, some, if◌then◌else◌, ◌≡◌, refl, sym, ◌∙◌, arith, Bool-cases,
  inl, inr,
}
use tws_rust.Prelude.Equality.{Eq, beq_refl, beq_comm, beq_trans}
use tws_rust.Map.{Map, get, contains_key, insert, remove, modify}

module _ {K V : Type 0} ⦃e : Eq K⦄ where
  pub contains_key-get :
      (k : K) (m : Map K V) → contains_key k m ≡ (elim (get k m) [ none ↦ false | some v ↦ true ])
  unfolding contains_key get
  contains_key-get k [] = refl
  contains_key-get k ((j, v) ∷ m) = ground (arith, contains_key-get k m)

  pub get-insert :
      (k j : K) (v : V) (m : Map K V)
      → get j (insert k v m) ≡ (if e.beq k j then some v else get j m)
  unfolding get insert
  get-insert k j v [] = refl
  get-insert k j v ((i, w) ∷ m) = elim (Bool-cases (e.beq i k)) [
    | inl same ↦ ground (arith, beq_trans i k j same)
    | inr other ↦ elim (Bool-cases (e.beq i j)) [
      | inr far ↦ ground (arith, get-insert k j v m)
      | inl near ↦
          let differ : e.beq k j ≡ false = beq_comm k j ∙ sym (beq_trans i j k near) ∙ other in
          ground arith
    ]
  ]

  pub get-remove :
      (k j : K) (m : Map K V) → get j (remove k m) ≡ (if e.beq k j then none else get j m)
  unfolding get remove
  get-remove k j [] = ground arith
  get-remove k j ((i, w) ∷ m) = elim (Bool-cases (e.beq i k)) [
    | inl same ↦ ground (arith, beq_trans i k j same, get-remove k j m)
    | inr other ↦ elim (Bool-cases (e.beq i j)) [
      | inr far ↦ ground (arith, get-remove k j m)
      | inl near ↦
          let differ : e.beq k j ≡ false = beq_comm k j ∙ sym (beq_trans i j k near) ∙ other in
          ground arith
    ]
  ]

  pub get-modify :
      (k j : K) (f : V → V) (m : Map K V)
      → get j (modify k f m)
        ≡ (if e.beq k j then (elim (get j m) [ none ↦ none | some v ↦ some (f v) ]) else get j m)
  unfolding get modify
  get-modify k j f [] = ground arith
  get-modify k j f ((i, w) ∷ m) = elim (Bool-cases (e.beq i k)) [
    | inl same ↦ ground (arith, beq_trans i k j same)
    | inr other ↦ elim (Bool-cases (e.beq i j)) [
      | inr far ↦ ground (arith, get-modify k j f m)
      | inl near ↦
          let differ : e.beq k j ≡ false = beq_comm k j ∙ sym (beq_trans i j k near) ∙ other in
          ground arith
    ]
  ]

  pub contains_key-insert :
      (k j : K) (v : V) (m : Map K V)
      → contains_key j (insert k v m) ≡ e.beq k j || contains_key j m
  contains_key-insert k j v m =
      contains_key-get j (insert k v m) ∙ ground (arith, get-insert k j v m, contains_key-get j m)

  pub contains_key-remove_key :
      (k j : K) (m : Map K V)
      → contains_key j (remove k m) ≡ (if e.beq k j then false else contains_key j m)
  contains_key-remove_key k j m =
      contains_key-get j (remove k m) ∙ ground (arith, get-remove k j m, contains_key-get j m)

  pub contains_key-modify :
      (k j : K) (f : V → V) (m : Map K V) → contains_key k (modify j f m) ≡ contains_key k m
  unfolding contains_key modify
  contains_key-modify k j f [] = refl
  contains_key-modify k j f ((i, v) ∷ m) = ground (arith, contains_key-modify k j f m)

  -- What is in the map can be had.
  pub get_present : (k : K) (m : Map K V) → contains_key k m ≡ true → (v : V) × (get k m ≡ some v)
  unfolding contains_key get
  get_present k [] h = absurd (ground arith)
  get_present k ((j, v) ∷ m) h = elim (Bool-cases (e.beq j k)) [
    | inl same ↦ (v, ground arith)
    | inr other ↦ let (w, e) = get_present k m (ground arith) in (w, ground arith)
  ]

  -- A key that was just removed is not there.
  pub contains_key-remove : (k : K) (m : Map K V) → contains_key k (remove k m) ≡ false
  contains_key-remove k m =
      contains_key-get k (remove k m) ∙ ground (arith, get-remove k k m, beq_refl k)
