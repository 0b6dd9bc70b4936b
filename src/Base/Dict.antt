-- ===== src/Base/Dict.antt =====
-- A Go map with string keys: an association list, at most one entry to a key.
use mathlib.Core.Path.{◌≡◌, refl}
use mathlib.Core.Logic.{◌⊎◌, inl, inr}
use mathlib.Core.Bool.{false}
use mathlib.Core.Option.{Option, none, some}
use mathlib.Core.List.{List, [], ◌∷◌}
use native.Mathlib.Omega.{arith}
use mock_salesforce.Base.Tests.{Bool-cases, if◌then◌else◌}
use mock_salesforce.Base.Text.{Bytes, str_eq, str_eq_iff}

abbrev pub Assoc {ℓ} : Type ℓ → Type ℓ
Assoc V = List (Bytes × V)

module _ {ℓ} {V : Type ℓ} where
  -- `m[k]`, with the second result of the comma-ok form
  unfoldable pub lookup : Bytes → Assoc V → Option V
  lookup k [] = none
  lookup k ((j, v) ∷ m) = if str_eq j k then some v else lookup k m

  -- `m[k] = v`
  unfoldable pub insert : Bytes → V → Assoc V → Assoc V
  insert k v [] = (k, v) ∷ []
  insert k v ((j, w) ∷ m) = if str_eq j k then (k, v) ∷ m else (j, w) ∷ insert k v m

  -- `delete(m, k)`
  unfoldable pub erase : Bytes → Assoc V → Assoc V
  erase k [] = []
  erase k ((j, v) ∷ m) = let rest = erase k m in if str_eq j k then rest else (j, v) ∷ rest

  pub lookup-insert :
      (k j : Bytes) (v : V) (m : Assoc V)
      → lookup j (insert k v m) ≡ (if str_eq k j then some v else lookup j m)
  unfolding lookup insert
  lookup-insert k j v [] = refl
  lookup-insert k j v ((i, w) ∷ m) =
      ground (arith, str_eq_iff k j, str_eq_iff i k, str_eq_iff i j, lookup-insert k j v m)

  pub lookup-erase :
      (k j : Bytes) (m : Assoc V) → lookup j (erase k m) ≡ (if str_eq k j then none else lookup j m)
  unfolding lookup erase
  lookup-erase k j [] = ground arith
  lookup-erase k j ((i, v) ∷ m) =
      ground (arith, str_eq_iff k j, str_eq_iff i k, str_eq_iff i j, lookup-erase k j m)

  -- What a key holds after an insertion is the new value, or what it held before.
  pub inserted :
      (k j : Bytes) (v w : V) (m : Assoc V)
      → lookup j (insert k v m) ≡ some w
      → ((k ≡ j) × (w ≡ v)) ⊎ ((str_eq k j ≡ false) × (lookup j m ≡ some w))
  inserted k j v w m h = elim (Bool-cases (str_eq k j)) [
    | inl e ↦
        let q : some v ≡ some w = rw (lookup-insert k j v m, e) at h in
        inl ((str_eq_iff k j).0 e, cc)
    | inr e ↦ inr (e, rw (lookup-insert k j v m, e) at h)
  ]

  -- What a key holds after an erasure, it held before.
  pub erased :
      (k j : Bytes) (w : V) (m : Assoc V)
      → lookup j (erase k m) ≡ some w
      → (str_eq k j ≡ false) × (lookup j m ≡ some w)
  erased k j w m h = elim (Bool-cases (str_eq k j)) [
    | inl e ↦ let q : none ≡ some w = rw (lookup-erase k j m, e) at h in cc
    | inr e ↦ (e, rw (lookup-erase k j m, e) at h)
  ]

module _ {ℓ κ} {V : Type ℓ} {W : Type κ} where
  -- Rewrites every value; the keys stay.
  unfoldable pub map_values : (V → W) → Assoc V → Assoc W
  map_values f [] = []
  map_values f ((k, v) ∷ m) = (k, f v) ∷ map_values f m

  pub lookup-map_values :
      (f : V → W) (k : Bytes) (m : Assoc V)
      → lookup k (map_values f m) ≡ elim (lookup k m) [ none ↦ none | some v ↦ some (f v) ]
  unfolding lookup map_values
  lookup-map_values f k [] = refl
  lookup-map_values f k ((j, v) ∷ m) = ground (arith, lookup-map_values f k m)
