-- ===== src/Base/Lists.antt =====
-- Lists measured and searched with native numbers and Boolean tests.
use Prim.Native.Nat.{ℕ, zero, suc, ◌+◌, ◌≤◌}
use mathlib.Core.Path.{◌≡◌, refl, ap}
use mathlib.Core.Bool.{Bool, true, false, ◌&&◌, ◌||◌}
use mathlib.Core.List.{List, [], ◌∷◌, ◌++◌}
use mathlib.Core.Option.{Option, none, some}
use native.Mathlib.Omega.{arith}
use open_chronicle_next.Base.Tests.{if◌then◌else◌, ◌==◌}

module _ {ℓ} {A : Type ℓ} where
  abbrev pub length : List A → ℕ
  length [] = 0
  length (x ∷ xs) = suc (length xs)

  abbrev pub get_elem? : List A → ℕ → Option A
  get_elem? [] i = none
  get_elem? (x ∷ xs) zero = some x
  get_elem? (x ∷ xs) (suc i) = get_elem? xs i

  -- A slice up to an index.
  abbrev pub take : ℕ → List A → List A
  take n [] = []
  take zero (x ∷ xs) = []
  take (suc n) (x ∷ xs) = x ∷ take n xs

  -- A write out of bounds changes nothing.
  abbrev pub set : List A → ℕ → A → List A
  set [] i v = []
  set (x ∷ xs) zero v = v ∷ xs
  set (x ∷ xs) (suc i) v = x ∷ set xs i v

  -- `Vec::retain`, and `Iterator::filter`.
  abbrev pub retain : (A → Bool) → List A → List A
  retain p [] = []
  retain p (x ∷ xs) = let rest = retain p xs in if p x then x ∷ rest else rest

  -- `Iterator::any`.
  abbrev pub any : (A → Bool) → List A → Bool
  any p [] = false
  any p (x ∷ xs) = p x || any p xs

  -- `Iterator::all`.
  abbrev pub every : (A → Bool) → List A → Bool
  every p [] = true
  every p (x ∷ xs) = p x && every p xs

  -- `Iterator::find`.
  abbrev pub find : (A → Bool) → List A → Option A
  find p [] = none
  find p (x ∷ xs) = if p x then some x else find p xs

  pub length-append : (xs ys : List A) → length (xs ++ ys) ≡ length xs + length ys
  length-append [] ys = omega arith
  length-append (x ∷ xs) ys = omega (arith, length-append xs ys)

  pub append_nil : (xs : List A) → xs ++ [] ≡ xs
  append_nil [] = refl
  append_nil (x ∷ xs) = ap (λ ys. x ∷ ys) (append_nil xs)

  pub length-retain-le : (p : A → Bool) (xs : List A) → length (retain p xs) ≤ length xs
  length-retain-le p [] = omega arith
  length-retain-le p (x ∷ xs) = ground (arith, length-retain-le p xs)

  pub every-append :
      (p : A → Bool) (xs ys : List A) → every p (xs ++ ys) ≡ (every p xs && every p ys)
  every-append p [] ys = refl
  every-append p (x ∷ xs) ys = ground (arith, every-append p xs ys)

  -- What a search finds passes its test.
  pub find_sound : (p : A → Bool) (xs : List A) (a : A) → find p xs ≡ some a → p a ≡ true
  find_sound p [] a h = ground arith
  find_sound p (x ∷ xs) a h = ground (arith, find_sound p xs a)

  -- What every entry passes, the one that is found passes.
  pub every-find :
      (p q : A → Bool) (xs : List A) (a : A) → every q xs ≡ true → find p xs ≡ some a → q a ≡ true
  every-find p q [] a h f = ground arith
  every-find p q (x ∷ xs) a h f = ground (arith, every-find p q xs a)

  -- A search in a filtered list that ends in one new entry, which alone passes the test.
  pub find-retain-snoc :
      (p q : A → Bool) (xs : List A) (a : A)
      → find p xs ≡ none
      → p a ≡ true
      → find p (retain q (xs ++ a ∷ [])) ≡ (if q a then some a else none)
  find-retain-snoc p q [] a h k = ground arith
  find-retain-snoc p q (x ∷ xs) a h k = ground (arith, find-retain-snoc p q xs a)

  -- A filter that keeps what a search finds does not change the search.
  pub find-retain :
      (p q : A → Bool) (xs : List A) (a : A)
      → find p xs ≡ some a
      → q a ≡ true
      → find p (retain q xs) ≡ some a
  find-retain p q [] a h k = ground arith
  find-retain p q (x ∷ xs) a h k = ground (arith, find-retain p q xs a)

  -- The entry behind a list in which a search fails.
  pub find-snoc_none :
      (p : A → Bool) (xs : List A) (a : A)
      → any p xs ≡ false
      → p a ≡ true
      → find p (xs ++ a ∷ []) ≡ some a
  find-snoc_none p [] a h k = ground arith
  find-snoc_none p (x ∷ xs) a h k = ground (arith, find-snoc_none p xs a)

  -- A weaker test fails where a stronger one does.
  pub any-false :
      (p q : A → Bool) (xs : List A)
      → ((a : A) → p a ≡ true → q a ≡ true)
      → any q xs ≡ false
      → any p xs ≡ false
  any-false p q [] weaker h = refl
  any-false p q (x ∷ xs) weaker h = ground (arith, weaker x, any-false p q xs weaker)

-- `slice.contains` and `HashSet::contains` on identifiers.
abbrev pub contains : ℕ → List ℕ → Bool
contains a xs = any (λ x. x == a) xs

abbrev pub sum : List ℕ → ℕ
sum [] = 0
sum (x ∷ xs) = x + sum xs
