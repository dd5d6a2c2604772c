-- ===== src/Base/Sort.antt =====
-- `slice::sort_by` with a numeric key. The sort is stable, so its result is that of insertion.
use Prim.Native.Nat.{ℕ, suc}
use mathlib.Core.Path.{◌≡◌, refl}
use mathlib.Core.Bool.{Bool, true, ◌&&◌}
use mathlib.Core.Logic.{inl, inr}
use mathlib.Core.Option.{Option, none, some}
use native.Mathlib.Omega.{arith}
use mathlib.Core.List.{List, [], ◌∷◌}
use open_chronicle_next.Base.Tests.{if◌then◌else◌, leb, ◌==◌, Option-cases}
use open_chronicle_next.Base.Lists.{every, find, length, retain}

module _ {ℓ} {A : Type ℓ} (key : A → ℕ) where
  abbrev pub insert : A → List A → List A
  insert a [] = a ∷ []
  insert a (x ∷ xs) = let rest = insert a xs in if leb (key a) (key x) then a ∷ x ∷ xs else x ∷ rest

  abbrev pub sort : List A → List A
  sort [] = []
  sort (x ∷ xs) = insert x (sort xs)

  abbrev pub sorted : List A → Bool
  sorted [] = true
  sorted (x ∷ xs) = every (λ y. leb (key x) (key y)) xs && sorted xs

  -- A sorted insertion is found first under its own key, and hides no other key.
  find-insert :
      (k : ℕ) (a : A) (xs : List A)
      → find (λ x. key x == k) (insert a xs)
        ≡ (if key a == k then some a else find (λ x. key x == k) xs)
  find-insert k a [] = refl
  find-insert k a (x ∷ xs) = ground (arith, find-insert k a xs)

  -- Sorting by a key changes no search by that key.
  pub find-sort :
      (k : ℕ) (xs : List A) → find (λ x. key x == k) (sort xs) ≡ find (λ x. key x == k) xs
  find-sort k [] = refl
  find-sort k (x ∷ xs) = ground (arith, find-insert k x (sort xs), find-sort k xs)

  length-insert : (a : A) (xs : List A) → length (insert a xs) ≡ suc (length xs)
  length-insert a [] = refl
  length-insert a (x ∷ xs) = ground (arith, length-insert a xs)

  pub length-sort : (xs : List A) → length (sort xs) ≡ length xs
  length-sort [] = refl
  length-sort (x ∷ xs) = ground (arith, length-insert x (sort xs), length-sort xs)

-- `slice::sort_by` and `Iterator::min_by`, where the order is a test.
module _ {ℓ} {A : Type ℓ} where
  abbrev pub insert_by : (A → A → Bool) → A → List A → List A
  insert_by le a [] = a ∷ []
  insert_by le a (x ∷ xs) = let rest = insert_by le a xs in if le a x then a ∷ x ∷ xs else x ∷ rest

  unfoldable pub sort_by : (A → A → Bool) → List A → List A
  sort_by le [] = []
  sort_by le (x ∷ xs) = insert_by le x (sort_by le xs)

  -- Among equals the first is the minimum.
  unfoldable pub min_by : (A → A → Bool) → List A → Option A
  min_by lt [] = none
  min_by lt (x ∷ xs) = elim (min_by lt xs) [
    | none ↦ some x
    | some y ↦ if lt y x then some y else some x
  ]

  pub every-retain :
      (p q : A → Bool) (xs : List A) → every q xs ≡ true → every q (retain p xs) ≡ true
  every-retain p q [] h = refl
  every-retain p q (x ∷ xs) h = ground (arith, every-retain p q xs)

  -- What all entries pass, the minimum passes.
  pub every-min_by :
      (lt : A → A → Bool) (q : A → Bool) (xs : List A) (a : A)
      → every q xs ≡ true
      → min_by lt xs ≡ some a
      → q a ≡ true
  unfolding min_by
  every-min_by lt q [] a h m = ground arith
  every-min_by lt q (x ∷ xs) a h m = elim (Option-cases (min_by lt xs)) [
    | inl missing ↦ ground arith
    | inr (y, found) ↦ let rest = every-min_by lt q xs y in ground arith
  ]

  every-insert_by :
      (le : A → A → Bool) (q : A → Bool) (a : A) (xs : List A)
      → q a ≡ true
      → every q xs ≡ true
      → every q (insert_by le a xs) ≡ true
  every-insert_by le q a [] p h = ground arith
  every-insert_by le q a (x ∷ xs) p h = ground (arith, every-insert_by le q a xs)

  pub every-sort_by :
      (le : A → A → Bool) (q : A → Bool) (xs : List A)
      → every q xs ≡ true
      → every q (sort_by le xs) ≡ true
  unfolding sort_by
  every-sort_by le q [] h = refl
  every-sort_by le q (x ∷ xs) h =
      ground (arith, every-insert_by le q x (sort_by le xs), every-sort_by le q xs)
