-- ===== src/Prelude/Sort.antt =====
-- Python's `sort` by a strict test: stable, so equal items keep their order.
use mathlib.Core.Path.{◌≡◌, refl}
use mathlib.Core.Bool.{Bool, ◌||◌}
use mathlib.Core.List.{List, [], ◌∷◌, map}
use native.Mathlib.Omega.{arith}
use crownet.Prelude.Tests.{if◌then◌else◌}
use crownet.Prelude.Lists.{length}
use crownet.Prelude.Sets.{Eq, contains}

module _ {ℓ} {A : Type ℓ} (lt : A → A → Bool) where
  abbrev pub insert_sorted : A → List A → List A
  insert_sorted x [] = x ∷ []
  insert_sorted x (y ∷ ys) = if lt y x then y ∷ insert_sorted x ys else x ∷ y ∷ ys

  abbrev pub sort : List A → List A
  sort [] = []
  sort (x ∷ xs) = insert_sorted x (sort xs)

  contains-insert_sorted :
      ⦃e : Eq A⦄
      → (x : A) (ys : List A) (a : A)
      → contains (insert_sorted x ys) a ≡ (e.beq a x || contains ys a)
  contains-insert_sorted x [] a = refl
  contains-insert_sorted x (y ∷ ys) a = ground (arith, contains-insert_sorted x ys a)

  -- Sorting neither loses nor invents an item.
  pub contains-sort : ⦃e : Eq A⦄ → (xs : List A) (a : A) → contains (sort xs) a ≡ contains xs a
  contains-sort [] a = refl
  contains-sort (x ∷ xs) a =
      ground (arith, contains-insert_sorted x (sort xs) a, contains-sort xs a)

  length-insert_sorted : (x : A) (ys : List A) → length (insert_sorted x ys) ≡ length (x ∷ ys)
  length-insert_sorted x [] = refl
  length-insert_sorted x (y ∷ ys) = ground (arith, length-insert_sorted x ys)

  pub length-sort : (xs : List A) → length (sort xs) ≡ length xs
  length-sort [] = refl
  length-sort (x ∷ xs) = ground (arith, length-insert_sorted x (sort xs), length-sort xs)

  contains-map-insert_sorted {κ} :
      {K : Type κ} ⦃e : Eq K⦄ (f : A → K) (x : A) (ys : List A) (k : K)
      → contains (map f (insert_sorted x ys)) k ≡ (e.beq k (f x) || contains (map f ys) k)
  contains-map-insert_sorted f x [] k = refl
  contains-map-insert_sorted f x (y ∷ ys) k = ground (arith, contains-map-insert_sorted f x ys k)

  -- Nor does it of what a function makes of the items.
  pub contains-map-sort {κ} :
      {K : Type κ} ⦃e : Eq K⦄ (f : A → K) (xs : List A) (k : K)
      → contains (map f (sort xs)) k ≡ contains (map f xs) k
  contains-map-sort f [] k = refl
  contains-map-sort f (x ∷ xs) k =
      ground (arith, contains-map-insert_sorted f x (sort xs) k, contains-map-sort f xs k)
