-- ===== src/Prelude/Sets.antt =====
-- Membership by a Boolean equality, sets as lists without repetition, and dicts in insertion order.
use Prim.Native.Nat.{ℕ, suc, ◌≤◌}
use mathlib.Core.Path.{◌≡◌, refl, sym}
use mathlib.Core.Logic.{◌↔◌, inl, inr}
use mathlib.Core.Bool.{Bool, true, false, ◌&&◌, ◌||◌}
use mathlib.Core.List.{List, [], ◌∷◌, ◌++◌}
use native.Mathlib.Omega.{arith}
use crownet.Prelude.Lists.{length}
use crownet.Prelude.Tests.{◌==◌ as nat_beq, ==_iff, if◌then◌else◌, Bool-cases}

pub record Eq {ℓ} (A : Type ℓ) : Type ℓ where
  pub beq : A → A → Bool
  pub beq_iff : (a b : A) → (beq a b ≡ true) ↔ (a ≡ b)

instance abbrev pub nat_eq : Eq ℕ
nat_eq = record { beq = nat_beq; beq_iff = ==_iff }

module _ {ℓ κ} {A : Type ℓ} {B : Type κ} ⦃e : Eq A⦄ ⦃f : Eq B⦄ where
  abbrev pub pair_beq : A × B → A × B → Bool
  pair_beq (a, b) (c, d) = e.beq a c && f.beq b d

  pub pair_beq_iff : (p q : A × B) → (pair_beq p q ≡ true) ↔ (p ≡ q)
  pair_beq_iff (a, b) (c, d) = (
    λ h. ground (arith, e.beq_iff a c, f.beq_iff b d),
    λ h. ground (arith, e.beq_iff a c, f.beq_iff b d),
  )

  instance abbrev pub pair_eq : Eq (A × B)
  pair_eq = record { beq = pair_beq; beq_iff = pair_beq_iff }

module _ {ℓ} {A : Type ℓ} ⦃e : Eq A⦄ where
  pub beq_self : (a : A) → e.beq a a ≡ true
  beq_self a = (e.beq_iff a a).1 refl

  pub beq_sym : (a b : A) → e.beq a b ≡ true → e.beq b a ≡ true
  beq_sym a b h = (e.beq_iff b a).1 (sym ((e.beq_iff a b).0 h))

  -- `x in xs`
  abbrev pub contains : List A → A → Bool
  contains [] a = false
  contains (x ∷ xs) a = e.beq a x || contains xs a

  -- `all.add(x)` on a set that is kept as a list.
  abbrev pub add : List A → A → List A
  add xs a = if contains xs a then xs else xs ++ (a ∷ [])

  -- No item is listed twice.
  abbrev pub IsSetList : List A → Type 0
  IsSetList [] = Unit
  IsSetList (x ∷ xs) = (contains xs x ≡ false) × IsSetList xs

  pub contains-append :
      (xs ys : List A) (a : A) → contains (xs ++ ys) a ≡ (contains xs a || contains ys a)
  contains-append [] ys a = refl
  contains-append (x ∷ xs) ys a = ground (arith, contains-append xs ys a)

  pub contains-add : (xs : List A) (a b : A) → contains (add xs a) b ≡ (contains xs b || e.beq b a)
  contains-add xs a b = elim (Bool-cases (contains xs a)) [
    | inl old ↦ elim (Bool-cases (e.beq b a)) [
      | inl same ↦ let eq : b ≡ a = (e.beq_iff b a).0 same in rw (old, same, eq, old)
      | inr other ↦ rw (old, other) (ground arith)
    ]
    | inr new ↦ rw new (rw (contains-append xs (a ∷ []) b) (ground arith))
  ]

  remove : List A → A → List A
  remove [] a = []
  remove (x ∷ xs) a = if e.beq a x then xs else x ∷ remove xs a

  length-remove :
      (xs : List A) (a : A) → contains xs a ≡ true → suc (length (remove xs a)) ≡ length xs
  unfolding remove
  length-remove [] a h = cc
  length-remove (x ∷ xs) a h = ground (arith, length-remove xs a)

  contains-remove :
      (xs : List A) (a b : A)
      → contains xs b ≡ true
      → e.beq b a ≡ false
      → contains (remove xs a) b ≡ true
  unfolding remove
  contains-remove [] a b h ne = cc
  contains-remove (x ∷ xs) a b h ne =
      ground (arith, contains-remove xs a b, e.beq_iff a x, e.beq_iff b x, e.beq_iff b a)

  -- A list without repetition is no longer than a list that has all its items.
  pub length-le_of_subset :
      (xs ys : List A)
      → IsSetList xs
      → ((a : A) → contains xs a ≡ true → contains ys a ≡ true)
      → length xs ≤ length ys
  length-le_of_subset [] ys u h = omega arith
  length-le_of_subset (x ∷ xs) ys (fresh, u) h =
      let first : contains ys x ≡ true = h x (rw (beq_self x)) in
      let rest : length xs ≤ length (remove ys x) =
        length-le_of_subset xs (remove ys x) u
          λ b m. contains-remove ys x b (h b (ground arith)) (apart b m) in
      omega (arith, length-remove ys x first)
    where
      apart : (b : A) → contains xs b ≡ true → e.beq b x ≡ false
      apart b m = ground (arith, e.beq_iff b x)
