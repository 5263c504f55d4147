-- ===== src/Base/Dict.antt =====
-- Python dictionaries as association lists in insertion order: a write to a key that is there
-- keeps its place. Proofs elsewhere go by the laws.
use mathlib.Core.Path.{◌≡◌, refl}
use mathlib.Core.Logic.{◌≢◌, ◌⊎◌, inl, inr}
use mathlib.Core.Bool.{Bool, true, false}
use mathlib.Core.Option.{Option, none, some}
use mathlib.Core.List.{List, [], ◌∷◌, ◌++◌, map}
use native.Mathlib.Omega.{arith}
use distributed_sensor_hub.Base.Equality.{Eq, ◌==◌, if◌then◌else◌}

abbrev pub Dict {ℓ κ} : Type ℓ → Type κ → Type (ℓ ⊔ κ)
Dict K V = List (K × V)

-- `list(d.values())`
abbrev pub values {ℓ κ} : {K : Type ℓ} {V : Type κ} → Dict K V → List V
values = map (λ (_, v). v)

module _ {ℓ κ} {K : Type ℓ} {V : Type κ} ⦃e : Eq K⦄ where
  -- `d.get(k)`
  unfoldable pub lookup : K → Dict K V → Option V
  lookup k [] = none
  lookup k ((j, v) ∷ d) = if k == j then some v else lookup k d

  -- `d[k] = v`
  unfoldable pub insert : K → V → Dict K V → Dict K V
  insert k v [] = (k, v) ∷ []
  insert k v ((j, w) ∷ d) = if k == j then (j, v) ∷ d else (j, w) ∷ insert k v d

  -- `d.pop(k, None)`
  unfoldable pub erase : K → Dict K V → Dict K V
  erase k [] = []
  erase k ((j, w) ∷ d) = if k == j then d else (j, w) ∷ erase k d

  -- `k in d`
  abbrev pub has : K → Dict K V → Bool
  has k d = elim (lookup k d) [ none ↦ false | some _ ↦ true ]

  -- No key stands twice.
  abbrev pub NodupKeys : Dict K V → Type κ
  NodupKeys [] = Unit
  NodupKeys ((k, _) ∷ d) = (lookup k d ≡ none) × NodupKeys d

  pub lookup-nil : (k : K) → lookup k [] ≡ none
  unfolding lookup
  lookup-nil k = refl

  pub lookup-insert :
      (j k : K) (v : V) (d : Dict K V)
      → lookup j (insert k v d) ≡ (if j == k then some v else lookup j d)
  unfolding insert lookup
  lookup-insert j k v [] = refl
  lookup-insert j k v (_ ∷ d) = ground (arith, lookup-insert j k v d)

  pub insert-NodupKeys : (k : K) (v : V) (d : Dict K V) → NodupKeys d → NodupKeys (insert k v d)
  unfolding insert lookup
  insert-NodupKeys k v [] u = (refl, tt)
  insert-NodupKeys k v ((j, w) ∷ d) (fresh, u) =
      ground (arith, insert-NodupKeys k v d u, lookup-insert j k v d)

  pub lookup-erase :
      (j k : K) (d : Dict K V)
      → NodupKeys d
      → lookup j (erase k d) ≡ (if j == k then none else lookup j d)
  unfolding erase lookup
  lookup-erase j k [] _ = ground arith
  lookup-erase j k (_ ∷ d) (fresh, u) = ground (arith, lookup-erase j k d u)

  pub erase-NodupKeys : (k : K) (d : Dict K V) → NodupKeys d → NodupKeys (erase k d)
  unfolding erase lookup
  erase-NodupKeys k [] u = tt
  erase-NodupKeys k ((j, w) ∷ d) (fresh, u) =
      ground (arith, erase-NodupKeys k d u, lookup-erase j k d u)

  -- An entry of a dictionary is its first one, or one of the rest.
  pub lookup_cases :
      (j k : K) (v w : V) (d : Dict K V)
      → lookup k ((j, w) ∷ d) ≡ some v
      → ((k ≡ j) × (w ≡ v)) ⊎ ((k ≢ j) × (lookup k d ≡ some v))
  unfolding lookup
  lookup_cases j k v w d h = elim (e.dec k j) [
    | yes p ↦ inl (p, ground arith)
    | no p ↦ inr (p, ground arith)
  ]

  pub lookup_absent :
      (j k : K) (w : V) (d : Dict K V)
      → lookup k ((j, w) ∷ d) ≡ none
      → (k ≢ j) × (lookup k d ≡ none)
  unfolding lookup
  lookup_absent j k w d h = elim (e.dec k j) [
    | yes p ↦ absurd (ground arith)
    | no p ↦ (p, ground arith)
  ]

  pub lookup_head : (k : K) (v : V) (d : Dict K V) → lookup k ((k, v) ∷ d) ≡ some v
  unfolding lookup
  lookup_head k v d = ground arith

  pub lookup_tail :
      (j k : K) (v w : V) (d : Dict K V)
      → NodupKeys ((k, w) ∷ d)
      → lookup j d ≡ some v
      → lookup j ((k, w) ∷ d) ≡ some v
  unfolding lookup
  lookup_tail j k v w d u h = ground arith

  pub lookup-insert_self : (k : K) (v : V) (d : Dict K V) → lookup k (insert k v d) ≡ some v
  lookup-insert_self k v d = ground (arith, lookup-insert k k v d)

  pub lookup-insert_other :
      (j k : K) (v : V) (d : Dict K V) → j ≢ k → lookup j (insert k v d) ≡ lookup j d
  lookup-insert_other j k v d ne = ground (arith, lookup-insert j k v d)

  -- A new key goes to the end.
  pub values-insert :
      (k : K) (v : V) (d : Dict K V)
      → lookup k d ≡ none
      → values (insert k v d) ≡ values d ++ (v ∷ [])
  unfolding insert lookup
  values-insert k v [] h = refl
  values-insert k v ((j, w) ∷ d) h = ground (arith, values-insert k v d)
