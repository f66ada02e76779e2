-- ===== src/Prelude/Keys.antt =====
-- Dicts in which each key has one entry: each entry is what its key looks up.
use mathlib.Core.Path.{◌≡◌, refl}
use mathlib.Core.Logic.{inl, inr}
use mathlib.Core.Bool.{Bool, true, false}
use mathlib.Core.List.{List, [], ◌∷◌}
use mathlib.Core.Option.{none, some}
use native.Mathlib.Omega.{arith}
use crownet.Prelude.Tests.{if◌then◌else◌, Bool-cases, Option-cases}
use crownet.Prelude.Sets.{Eq, beq_self}
use crownet.Prelude.Dicts.{lookup, has_key, put, lookup-put}

pub has_key-some {ℓ κ} :
    {K : Type ℓ} {V : Type κ} ⦃e : Eq K⦄ (k : K) (d : List (K × V))
    → has_key k d ≡ true
    → (v : V) × (lookup k d ≡ some v)
has_key-some k d there = elim (Option-cases (lookup k d)) [
  | inl new ↦ elim (absurd new there) [ ]
  | inr found ↦ found
]
  where
    absurd : lookup k d ≡ none → has_key k d ≡ true → ⊥
    absurd new h = ground (arith, new, h)

other_key {ℓ} : {K : Type ℓ} ⦃e : Eq K⦄ (j k : K) → e.beq j k ≡ false → e.beq k j ≡ false
other_key ⦃e⦄ j k apart = ground (arith, e.beq_iff j k, e.beq_iff k j)

module _ {K : Type 0} {V : Type 0} ⦃e : Eq K⦄ where
  abbrev pub Unique : List (K × V) → Type 0
  Unique [] = Unit
  Unique ((k, v) ∷ d) = (has_key k d ≡ false) × Unique d

  -- Each entry of the first dict is what the second looks up.
  abbrev pub Entries : List (K × V) → List (K × V) → Type 0
  Entries [] f = Unit
  Entries ((k, v) ∷ d) f = (lookup k f ≡ some v) × Entries d f

  has_key-put :
      (j k : K) (v : V) (d : List (K × V))
      → e.beq j k ≡ false
      → has_key j d ≡ false
      → has_key j (put k v d) ≡ false
  has_key-put j k v d apart new = rw (lookup-put k j v d, apart, has_key) new

  pub Unique-put : (k : K) (v : V) (d : List (K × V)) → Unique d → Unique (put k v d)
  Unique-put k v [] u = (refl, tt)
  Unique-put k v ((j, w) ∷ d) (new, u) = go (e.beq k j) refl (Unique-put k v d u)
    where
      go :
          (b : Bool)
          → e.beq k j ≡ b
          → Unique (put k v d)
          → Unique (if b then (j, v) ∷ d else (j, w) ∷ put k v d)
      go true same rest = (new, u)
      go false apart rest = (has_key-put j k v d (other_key k j apart) new, rest)

  Entries-skip :
      (j : K) (w : V) (d f : List (K × V))
      → has_key j d ≡ false
      → Entries d f
      → Entries d ((j, w) ∷ f)
  Entries-skip j w [] f new all = tt
  Entries-skip j w ((k, v) ∷ d) f new (here, all) = elim (Bool-cases (e.beq j k)) [
    | inl same ↦ elim (absurd same new) [ ]
    | inr apart ↦ (rw (other_key j k apart) here, Entries-skip j w d f (later apart new) all)
  ]
    where
      absurd : e.beq j k ≡ true → has_key j ((k, v) ∷ d) ≡ false → ⊥
      absurd same h = ground (arith, same, h)

      later : e.beq j k ≡ false → has_key j ((k, v) ∷ d) ≡ false → has_key j d ≡ false
      later apart h = ground (arith, apart, h)

  pub Unique-Entries : (d : List (K × V)) → Unique d → Entries d d
  Unique-Entries [] u = tt
  Unique-Entries ((k, v) ∷ d) (new, u) =
      (rw (beq_self k) refl, Entries-skip k v d d new (Unique-Entries d u))
