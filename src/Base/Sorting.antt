-- ===== src/Base/Sorting.antt =====
-- `sorted(xs, key=...)` and `list.sort(key=...)` for a key that is a text or a pair of texts. Python's sort is stable.
use Prim.Native.Nat.{Ordering, suc}
use Prim.Native.String.{String, then as or_else, compare as compare_text}
use mathlib.Core.Path.{◌≡◌, refl, ap, ◌∙◌}
use mathlib.Core.Logic.{inl, inr}
use mathlib.Core.Bool.{Bool, true, false}
use mathlib.Core.List.Permᴰ
use mathlib.Core.List.{List, [], ◌∷◌, ◌++◌, Memᴰ, Permᴰ}
use native.Mathlib.Omega.{arith}
use distributed_sensor_hub.Base.Equality.{Bool-cases, if◌then◌else◌}
use distributed_sensor_hub.Base.Lists.{length, Memᴰ-cases}
use distributed_sensor_hub.Base.Text.{swap-compare}

-- `after x y` says that `x` belongs behind `y`, which is then never so the other way round.
module _ {A : Type 0} (after : A → A → Bool) where
  unfoldable pub insert_with : A → List A → List A
  insert_with x [] = x ∷ []
  insert_with x (y ∷ ys) = let rest = insert_with x ys in if after x y then y ∷ rest else x ∷ y ∷ ys

  unfoldable pub sort_with : List A → List A
  sort_with [] = []
  sort_with (x ∷ xs) = insert_with x (sort_with xs)

  -- No key comes after the next one.
  abbrev pub IsOrdered : List A → Type 0
  IsOrdered [] = Unit
  IsOrdered (x ∷ []) = Unit
  IsOrdered (x ∷ y ∷ ys) = (after x y ≡ false) × IsOrdered (y ∷ ys)

  insert_with-Permᴰ : (x : A) (ys : List A) → Permᴰ (insert_with x ys) (x ∷ ys)
  unfolding insert_with
  insert_with-Permᴰ x [] = (Permᴰ.refl _)
  insert_with-Permᴰ x (y ∷ ys) = elim (Bool-cases (after x y)) [
    | inl late ↦
        rw late (Permᴰ.trans (Permᴰ.cons refl (insert_with-Permᴰ x ys)) (Permᴰ.swap refl refl))
    | inr early ↦ rw early (Permᴰ.refl _)
  ]

  pub sort_with-Permᴰ : (xs : List A) → Permᴰ (sort_with xs) xs
  unfolding sort_with
  sort_with-Permᴰ [] = Permᴰ.nil
  sort_with-Permᴰ (x ∷ xs) =
      Permᴰ.trans (insert_with-Permᴰ x (sort_with xs)) (Permᴰ.cons refl (sort_with-Permᴰ xs))

  abbrev pub Asymmetric : Type 0
  Asymmetric = (x y : A) → after x y ≡ true → after y x ≡ false

  insert_with-IsOrdered :
      Asymmetric → (x : A) (ys : List A) → IsOrdered ys → IsOrdered (insert_with x ys)
  unfolding insert_with
  insert_with-IsOrdered after_asym x [] h = tt
  insert_with-IsOrdered after_asym x (y ∷ []) h = elim (Bool-cases (after x y)) [
    | inl late ↦ rw late (after_asym x y late, tt)
    | inr early ↦ rw early (early, tt)
  ]
  insert_with-IsOrdered after_asym x (y ∷ z ∷ ys) (hyz, hs) =
      let rest = insert_with-IsOrdered after_asym x (z ∷ ys) hs in
      elim (Bool-cases (after x y)) [
        | inl late ↦ elim (Bool-cases (after x z)) [
          | inl later ↦ rw (late, later) (hyz, rw later at rest)
          | inr here ↦ rw (late, here) (after_asym x y late, (here, hs))
        ]
        | inr early ↦ rw early (early, (hyz, hs))
      ]

  pub sort_with-IsOrdered : Asymmetric → (xs : List A) → IsOrdered (sort_with xs)
  unfolding sort_with
  sort_with-IsOrdered after_asym [] = tt
  sort_with-IsOrdered after_asym (x ∷ xs) =
      insert_with-IsOrdered after_asym x (sort_with xs) (sort_with-IsOrdered after_asym xs)

module _ {A : Type 0} (key : A → String) where
  -- The key of the first comes after that of the second.
  unfoldable pub after : A → A → Bool
  after x y = elim (compare_text (key x) (key y)) [ Ordering.gt ↦ true | _ ↦ false ]

  after_asym : Asymmetric after
  unfolding after
  after_asym x y h = ground (arith, swap-compare (key x) (key y))

  abbrev pub sort_by : List A → List A
  sort_by = sort_with after

  -- No key comes after the next one.
  abbrev pub IsSorted : List A → Type 0
  IsSorted = IsOrdered after

  pub sort_by-Permᴰ : (xs : List A) → Permᴰ (sort_by xs) xs
  sort_by-Permᴰ = sort_with-Permᴰ after

  pub sort_by-IsSorted : (xs : List A) → IsSorted (sort_by xs)
  sort_by-IsSorted = sort_with-IsOrdered after after_asym

-- The same for a key that is a pair of texts, which Python compares in lexicographic order.
module _ {A : Type 0} (key : A → String × String) where
  unfoldable pub after_pair : A → A → Bool
  after_pair x y =
      elim (or_else (compare_text (key x).0 (key y).0) (compare_text (key x).1 (key y).1)) [
        | Ordering.gt ↦ true
        | _ ↦ false
      ]

  pub after_pair_asym : Asymmetric after_pair
  unfolding after_pair
  after_pair_asym x y h =
      ground (arith, swap-compare (key x).0 (key y).0, swap-compare (key x).1 (key y).1)

module _ {ℓ} {A : Type ℓ} where
  pub length-Permᴰ : {xs ys : List A} → Permᴰ xs ys → length xs ≡ length ys
  length-Permᴰ Permᴰ.nil = refl
  length-Permᴰ (Permᴰ.cons e p) = ap suc (length-Permᴰ p)
  length-Permᴰ (Permᴰ.swap e f) = refl
  length-Permᴰ (Permᴰ.trans p q) = length-Permᴰ p ∙ length-Permᴰ q

  pub Permᴰ-Memᴰ : {a : A} {xs ys : List A} → Permᴰ xs ys → Memᴰ a xs → Memᴰ a ys
  Permᴰ-Memᴰ Permᴰ.nil m = m
  Permᴰ-Memᴰ (Permᴰ.cons e p) m = elim (Memᴰ-cases m) [
    | inl here ↦ Memᴰ.head (here ∙ e)
    | inr later ↦ Memᴰ.tail (Permᴰ-Memᴰ p later)
  ]
  Permᴰ-Memᴰ (Permᴰ.swap e f) m = elim (Memᴰ-cases m) [
    | inl here ↦ Memᴰ.tail (Memᴰ.head (here ∙ e))
    | inr later ↦ elim (Memᴰ-cases later) [
      | inl next ↦ Memᴰ.head (next ∙ f)
      | inr after_both ↦ Memᴰ.tail (Memᴰ.tail after_both)
    ]
  ]
  Permᴰ-Memᴰ (Permᴰ.trans p q) m = Permᴰ-Memᴰ q (Permᴰ-Memᴰ p m)

  -- Two blocks change places.
  pub swap_blocks : (xs ys zs : List A) → Permᴰ (xs ++ (ys ++ zs)) (ys ++ (xs ++ zs))
  swap_blocks [] ys zs = Permᴰ.refl _
  swap_blocks (x ∷ xs) ys zs =
      Permᴰ.trans (Permᴰ.cons refl (swap_blocks xs ys zs))
        (Permᴰ.symm (Permᴰ.middle x ys (xs ++ zs)))
