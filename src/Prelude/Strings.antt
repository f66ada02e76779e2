-- ===== src/Prelude/Strings.antt =====
-- Python strings as lists of code points; a literal is written `text "..."`.
use Prim.Native.Char.{code}
use Prim.Native.Nat.{ℕ}
use Prim.Native.String.{String}
use mathlib.Core.Path.{◌≡◌}
use mathlib.Core.Logic.{◌↔◌}
use mathlib.Core.Bool.{Bool, true, false, ◌&&◌, ◌||◌}
use mathlib.Core.List.{List, [], ◌∷◌, ◌++◌}
use native.Mathlib.Omega.{arith}
use crownet.Prelude.Sets.{Eq, nat_eq}
use crownet.Prelude.Tests.{◌==◌}

abbrev pub Text : Type 0
Text = List ℕ

abbrev pub text : String → Text
text String.[] = []
text (String.◌∷◌ c s) = code c ∷ text s

module _ {ℓ} {A : Type ℓ} ⦃e : Eq A⦄ where
  abbrev pub list_beq : List A → List A → Bool
  list_beq [] [] = true
  list_beq [] (b ∷ ys) = false
  list_beq (a ∷ xs) [] = false
  list_beq (a ∷ xs) (b ∷ ys) = e.beq a b && list_beq xs ys

  list_beq-eq : (xs ys : List A) → list_beq xs ys ≡ true → xs ≡ ys
  list_beq-eq [] [] h = ground arith
  list_beq-eq [] (b ∷ ys) h = cc
  list_beq-eq (a ∷ xs) [] h = cc
  list_beq-eq (a ∷ xs) (b ∷ ys) h = ground (arith, e.beq_iff a b, list_beq-eq xs ys)

  list_beq_self : (xs : List A) → list_beq xs xs ≡ true
  list_beq_self [] = ground arith
  list_beq_self (a ∷ xs) = ground (arith, e.beq_iff a a, list_beq_self xs)

  pub list_beq_iff : (xs ys : List A) → (list_beq xs ys ≡ true) ↔ (xs ≡ ys)
  list_beq_iff xs ys = (list_beq-eq xs ys, λ p. rw p (list_beq_self ys))

  instance abbrev pub list_eq : Eq (List A)
  list_eq = record { beq = list_beq; beq_iff = list_beq_iff }

-- `s.split(c)` for one character, and `c.join(parts)`.
abbrev split_from : ℕ → Text → Text → List Text
split_from c word [] = word ∷ []
split_from c word (a ∷ s) = elim (a == c) [
  | true ↦ word ∷ split_from c [] s
  | false ↦ split_from c (word ++ (a ∷ [])) s
]

abbrev pub split : ℕ → Text → List Text
split c s = split_from c [] s

abbrev pub join : ℕ → List Text → Text
join c [] = []
join c (w ∷ []) = w
join c (w ∷ v ∷ ws) = w ++ (c ∷ join c (v ∷ ws))

abbrev pub starts_with : Text → Text → Bool
starts_with s [] = true
starts_with [] (c ∷ p) = false
starts_with (a ∷ s) (c ∷ p) = a == c && starts_with s p

-- `part in s`
abbrev pub has_text : Text → Text → Bool
has_text part [] = starts_with [] part
has_text part (c ∷ s) = starts_with (c ∷ s) part || has_text part s
