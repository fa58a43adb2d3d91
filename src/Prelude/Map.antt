-- ===== src/Prelude/Map.antt =====
-- `BTreeMap` with numbers for keys: the bindings in ascending order of the keys.
use Prim.Native.Nat.{ℕ}
use mathlib.Core.Path.{◌≡◌, refl}
use mathlib.Core.Bool.{Bool, true, false, ◌||◌}
use mathlib.Core.Option.{Option, none, some}
use mathlib.Core.List.{List, [], ◌∷◌}
use native.Mathlib.Omega.{arith}
use nymora.Prelude.Tests.{◌==◌, ltb, if◌then◌else◌}

abbrev pub Map {ℓ} : Type ℓ → Type ℓ
Map V = List (ℕ × V)

module _ {ℓ} {V : Type ℓ} where
  unfoldable pub lookup : ℕ → Map V → Option V
  lookup k [] = none
  lookup k ((j, v) ∷ m) = if k == j then some v else lookup k m

  unfoldable pub has_key : ℕ → Map V → Bool
  has_key k [] = false
  has_key k ((j, v) ∷ m) = k == j || has_key k m

  unfoldable pub insert : ℕ → V → Map V → Map V
  insert k v [] = (k, v) ∷ []
  insert k v ((j, w) ∷ m) =
      if k == j then (k, v) ∷ m else if ltb k j then (k, v) ∷ (j, w) ∷ m else (j, w) ∷ insert k v m

  unfoldable pub remove : ℕ → Map V → Map V
  remove k [] = []
  remove k ((j, v) ∷ m) = let rest = remove k m in if k == j then rest else (j, v) ∷ rest

  pub lookup-insert :
      (k j : ℕ) (v : V) (m : Map V)
      → lookup j (insert k v m) ≡ (if j == k then some v else lookup j m)
  unfolding lookup insert
  lookup-insert k j v [] = refl
  lookup-insert k j v ((i, w) ∷ m) = ground (arith, lookup-insert k j v m)

  pub lookup-insert_same : (k : ℕ) (v : V) (m : Map V) → lookup k (insert k v m) ≡ some v
  lookup-insert_same k v m = ground (arith, lookup-insert k k v m)

  pub lookup-remove :
      (k j : ℕ) (m : Map V) → lookup j (remove k m) ≡ (if j == k then none else lookup j m)
  unfolding lookup remove
  lookup-remove k j [] = ground arith
  lookup-remove k j ((i, w) ∷ m) = ground (arith, lookup-remove k j m)

  pub has_key-lookup :
      (k : ℕ) (m : Map V) → has_key k m ≡ elim (lookup k m) [ none ↦ false | some _ ↦ true ]
  unfolding lookup has_key
  has_key-lookup k [] = refl
  has_key-lookup k ((j, w) ∷ m) = ground (arith, has_key-lookup k m)

  pub has_key-true : (k : ℕ) (m : Map V) {v : V} → lookup k m ≡ some v → has_key k m ≡ true
  has_key-true k m h = ground (arith, has_key-lookup k m)

  pub has_key-false : (k : ℕ) (m : Map V) → has_key k m ≡ false → lookup k m ≡ none
  has_key-false k m h = ground (arith, has_key-lookup k m)

  pub has_key-insert :
      (k j : ℕ) (v : V) (m : Map V) → has_key j (insert k v m) ≡ (j == k || has_key j m)
  has_key-insert k j v m =
      ground (arith, has_key-lookup j (insert k v m), has_key-lookup j m, lookup-insert k j v m)

module _ {ℓ κ} {V : Type ℓ} {W : Type κ} where
  unfoldable pub map_values : (V → W) → Map V → Map W
  map_values f [] = []
  map_values f ((k, v) ∷ m) = (k, f v) ∷ map_values f m

  pub lookup-map_values :
      (f : V → W) (k : ℕ) (m : Map V)
      → lookup k (map_values f m) ≡ elim (lookup k m) [ none ↦ none | some v ↦ some (f v) ]
  unfolding lookup map_values
  lookup-map_values f k [] = refl
  lookup-map_values f k ((j, v) ∷ m) = ground (arith, lookup-map_values f k m)
