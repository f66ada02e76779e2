-- ===== src/Prelude/Dicts.antt =====
-- Python dicts in insertion order.
use mathlib.Core.Path.{◌≡◌, refl, sym}
use mathlib.Core.Logic.{inl, inr}
use mathlib.Core.Bool.{Bool, true, false, ◌||◌}
use mathlib.Core.List.{List, [], ◌∷◌, ◌++◌}
use mathlib.Core.Option.{Option, none, some}
use native.Mathlib.Omega.{arith}
use crownet.Prelude.Tests.{if◌then◌else◌, Bool-cases, Option-cases}
use crownet.Prelude.Sets.{Eq}

-- The first of two values, if there is one.
abbrev pub or_else {ℓ} : {V : Type ℓ} → Option V → Option V → Option V
or_else none o = o
or_else (some v) o = some v

pub or_else-none {ℓ} : {V : Type ℓ} (o : Option V) → or_else o none ≡ o
or_else-none none = refl
or_else-none (some v) = refl

pub or_else_assoc {ℓ} :
    {V : Type ℓ} (o p q : Option V) → or_else (or_else o p) q ≡ or_else o (or_else p q)
or_else_assoc none p q = refl
or_else_assoc (some v) p q = refl

module _ {ℓ κ} {K : Type ℓ} {V : Type κ} ⦃e : Eq K⦄ where
  -- `d.get(k)`
  abbrev pub lookup : K → List (K × V) → Option V
  lookup k [] = none
  lookup k ((j, v) ∷ d) = if e.beq k j then some v else lookup k d

  -- `k in d`
  abbrev pub has_key : K → List (K × V) → Bool
  has_key k d = elim (lookup k d) [ none ↦ false | some v ↦ true ]

  -- `d[k] = v`: a key keeps its place, a new key comes last.
  abbrev pub put : K → V → List (K × V) → List (K × V)
  put k v [] = (k, v) ∷ []
  put k v ((j, w) ∷ d) = if e.beq k j then (j, v) ∷ d else (j, w) ∷ put k v d

  -- `d.setdefault(k, v)`
  abbrev pub set_default : K → V → List (K × V) → List (K × V)
  set_default k v d = if has_key k d then d else d ++ ((k, v) ∷ [])

  -- `d.update(other)`
  abbrev pub update : List (K × V) → List (K × V) → List (K × V)
  update d [] = d
  update d ((k, v) ∷ other) = update (put k v d) other

  pub lookup-append :
      (k : K) (d f : List (K × V)) → lookup k (d ++ f) ≡ or_else (lookup k d) (lookup k f)
  lookup-append k [] f = refl
  lookup-append k ((j, v) ∷ d) f = ground (arith, lookup-append k d f)

  pub lookup-put :
      (k j : K) (v : V) (d : List (K × V))
      → lookup j (put k v d) ≡ (if e.beq j k then some v else lookup j d)
  lookup-put k j v [] = refl
  lookup-put k j v ((i, w) ∷ d) =
      ground (arith, e.beq_iff k i, e.beq_iff j i, e.beq_iff j k, e.beq_iff k k, lookup-put k j v d)

  pub has_key-put :
      (k j : K) (v : V) (d : List (K × V)) → has_key j (put k v d) ≡ (e.beq j k || has_key j d)
  has_key-put k j v d = rw (lookup-put k j v d, has_key) (go (e.beq j k))
    where
      go :
          (b : Bool)
          → (elim (if b then some v else lookup j d) [ none ↦ false | some w ↦ true ])
            ≡ (b || has_key j d)
      go true = refl
      go false = refl

  -- A pair whose key is there already adds nothing.
  pub lookup-has_key :
      (k j : K) (v : V) (d : List (K × V))
      → has_key k d ≡ true
      → lookup j d ≡ or_else (lookup j d) (lookup j ((k, v) ∷ []))
  lookup-has_key k j v d there = elim (Option-cases (lookup k d)) [
    | inl new ↦ elim (absurd new there) [ ]
    | inr (w, old) ↦ elim (Bool-cases (e.beq j k)) [
      | inl same ↦ let eq : j ≡ k = (e.beq_iff j k).0 same in rw (eq, old)
      | inr other ↦ rw other (sym (or_else-none (lookup j d)))
    ]
  ]
    where
      absurd : lookup k d ≡ none → has_key k d ≡ true → ⊥
      absurd new h = ground (arith, new, h)

  pub lookup-set_default :
      (k j : K) (v : V) (d : List (K × V))
      → lookup j (set_default k v d) ≡ or_else (lookup j d) (lookup j ((k, v) ∷ []))
  lookup-set_default k j v d = elim (Bool-cases (has_key k d)) [
    | inl old ↦ rw (old, set_default) (lookup-has_key k j v d old)
    | inr new ↦ rw (new, set_default) (lookup-append j d ((k, v) ∷ []))
  ]
