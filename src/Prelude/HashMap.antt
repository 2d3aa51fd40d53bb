-- ===== src/Prelude/HashMap.antt =====
-- `std::collections::HashMap` as a list of entries. The order of the list stands for the order in
-- which the map is iterated, which the program does not choose; a fresh key may go anywhere.
use metamagic.Prelude.{
  ◌↔◌, ◌≢◌, ◌||◌, Bool, true, false, refl, ◌≡◌, Option, none, some, List, [], ◌∷◌, arith, Eq, ◌==◌,
  if◌then◌else◌,
}
use mathlib.Core.Option

abbrev pub HashMap {ℓ κ} : Type ℓ → Type κ → Type (ℓ ⊔ κ)
HashMap K V = List (K × V)

module _ {ℓ κ} {K : Type ℓ} {V : Type κ} ⦃e : Eq K⦄ where
  -- `get`
  unfoldable pub lookup : K → HashMap K V → Option V
  lookup k [] = none
  lookup k ((j, v) ∷ m) = if k == j then some v else lookup k m

  -- `insert`
  unfoldable pub insert : K → V → HashMap K V → HashMap K V
  insert k v [] = (k, v) ∷ []
  insert k v ((j, w) ∷ m) = if k == j then (k, v) ∷ m else (j, w) ∷ insert k v m

  -- `remove`
  unfoldable pub remove : K → HashMap K V → HashMap K V
  remove k [] = []
  remove k ((j, w) ∷ m) = let rest = remove k m in if k == j then rest else (j, w) ∷ rest

  -- a write through `get_mut`
  unfoldable pub modify : K → (V → V) → HashMap K V → HashMap K V
  modify k f [] = []
  modify k f ((j, w) ∷ m) = if k == j then (j, f w) ∷ m else (j, w) ∷ modify k f m

  -- `entry(k).or_insert(v)`
  unfoldable pub or_insert : K → V → HashMap K V → HashMap K V
  or_insert k v m = elim (lookup k m) [ none ↦ insert k v m | some _ ↦ m ]

  pub lookup-insert :
      (j k : K) (v : V) (m : HashMap K V)
      → lookup j (insert k v m) ≡ (if j == k then some v else lookup j m)
  unfolding insert lookup
  lookup-insert j k v [] = ground arith
  lookup-insert j k v (_ ∷ m) = ground (arith, lookup-insert j k v m)

  pub lookup-remove :
      (j k : K) (m : HashMap K V) → lookup j (remove k m) ≡ (if j == k then none else lookup j m)
  unfolding remove lookup
  lookup-remove j k [] = ground arith
  lookup-remove j k (_ ∷ m) = ground (arith, lookup-remove j k m)

  pub lookup-modify :
      (j k : K) (f : V → V) (m : HashMap K V)
      → lookup j (modify k f m) ≡ (if j == k then Option.map f (lookup j m) else lookup j m)
  unfolding modify lookup
  lookup-modify j k f [] = ground arith
  lookup-modify j k f (_ ∷ m) = ground (arith, lookup-modify j k f m)

module _ {ℓ κ} {K : Type ℓ} {V : Type κ} ⦃e : Eq K⦄ where
  -- `values_mut` and `iter_mut`
  unfoldable pub map_entries : (K → V → V) → HashMap K V → HashMap K V
  map_entries f [] = []
  map_entries f ((j, w) ∷ m) = (j, f j w) ∷ map_entries f m

  -- `retain`, by the key
  unfoldable pub retain : (K → Bool) → HashMap K V → HashMap K V
  retain p [] = []
  retain p ((j, w) ∷ m) = let rest = retain p m in if p j then (j, w) ∷ rest else rest

  -- `contains_key`
  unfoldable pub contains_key : K → HashMap K V → Bool
  contains_key k [] = false
  contains_key k ((j, w) ∷ m) = k == j || contains_key k m

  -- A map has one entry for a key.
  abbrev pub NodupKeys : HashMap K V → Type κ
  NodupKeys [] = Unit
  NodupKeys ((k, _) ∷ m) = (lookup k m ≡ none) × NodupKeys m

  pub lookup-map_entries :
      (k : K) (f : K → V → V) (m : HashMap K V)
      → lookup k (map_entries f m) ≡ Option.map (f k) (lookup k m)
  unfolding map_entries lookup
  lookup-map_entries k f [] = refl
  lookup-map_entries k f (_ ∷ m) = ground (arith, lookup-map_entries k f m)

  pub lookup-retain :
      (k : K) (p : K → Bool) (m : HashMap K V)
      → lookup k (retain p m) ≡ (if p k then lookup k m else none)
  unfolding retain lookup
  lookup-retain k p [] = ground arith
  lookup-retain k p (_ ∷ m) = ground (arith, lookup-retain k p m)

  pub contains_key-lookup :
      (k : K) (m : HashMap K V) → (contains_key k m ≡ true) ↔ (lookup k m ≢ none)
  unfolding contains_key lookup
  contains_key-lookup k [] = (λ h. cc, λ h. absurd (h refl))
  contains_key-lookup k (_ ∷ m) = ground (arith, contains_key-lookup k m)

  pub lookup-or_insert :
      (j k : K) (v : V) (m : HashMap K V)
      → lookup j (or_insert k v m)
        ≡ (if j == k then some (Option.get_or (lookup j m) v) else lookup j m)
  unfolding or_insert
  lookup-or_insert j k v m = ground (arith, lookup-insert j k v m)
