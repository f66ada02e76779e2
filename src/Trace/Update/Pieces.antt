-- ===== src/Trace/Update/Pieces.antt =====
-- Pieces of a walk, and persons with pieces of their walks.
use mathlib.Core.List.{append_assoc}
use crownet.Prelude.{
  ℕ, ◌≡◌, ◌∙◌, refl, sym, ap, Bool, true, false, Option, none, some, some_inj, List, [], ◌∷◌, ◌++◌,
  if◌then◌else◌, list_eq, nat_eq, Text, decimal, list_beq, take, drop, take-append-drop,
}
use crownet.Trace.Walk.{Slice, apply_slice}
use crownet.Trace.Update.{Person, find_person, set_walk}

-- A list that stands in another without a gap.
abbrev pub Piece {ℓ} : {A : Type ℓ} → List A → List A → Type ℓ
Piece {A = A} xs ys = (before : List A) × (after : List A) × (before ++ (xs ++ after) ≡ ys)

append_nil : (xs : List Text) → xs ++ [] ≡ xs
append_nil [] = refl
append_nil (x ∷ xs) = ap (λ s. x ∷ s) (append_nil xs)

Piece-refl : (xs : List Text) → Piece xs xs
Piece-refl xs = ([], [], append_nil xs)

Piece-trans : (xs ys zs : List Text) → Piece xs ys → Piece ys zs → Piece xs zs
Piece-trans xs ys zs (b, a, p) (c, d, q) = (
  c ++ b,
  a ++ d,
  append_assoc c b (xs ++ (a ++ d))
      ∙ (ap (λ l. c ++ l)
            (ap (λ l. b ++ l) (sym (append_assoc xs a d)) ∙ sym (append_assoc b (xs ++ a) d))
          ∙ (ap (λ l. c ++ (l ++ d)) p ∙ q)),
)

pub apply_slice-Piece : (s : Slice) (xs : List Text) → Piece (apply_slice s xs) xs
unfolding apply_slice
apply_slice-Piece s xs = (
  take s.start (take s.stop xs),
  drop s.stop xs,
  sym (
        append_assoc (take s.start (take s.stop xs)) (drop s.start (take s.stop xs))
          (drop s.stop xs))
      ∙ (ap (λ l. l ++ drop s.stop xs) (take-append-drop s.start (take s.stop xs))
          ∙ take-append-drop s.stop xs),
)

abbrev CutWalk : Option (List Text) → Option (List Text) → Type 0
CutWalk none none = Unit
CutWalk none (some old) = ⊥
CutWalk (some new) none = ⊥
CutWalk (some new) (some old) = Piece new old

-- The same persons in the same order, each with a piece of its walk.
abbrev pub Cut : List Person → List Person → Type 0
Cut [] [] = Unit
Cut [] (q ∷ qs) = ⊥
Cut (p ∷ ps) [] = ⊥
Cut (p ∷ ps) (q ∷ qs) = ((p.id ≡ q.id) × CutWalk p.walk q.walk) × Cut ps qs

CutWalk-refl : (w : Option (List Text)) → CutWalk w w
CutWalk-refl none = tt
CutWalk-refl (some edges) = Piece-refl edges

CutWalk-trans : (u v w : Option (List Text)) → CutWalk u v → CutWalk v w → CutWalk u w
CutWalk-trans none none w c d = d
CutWalk-trans none (some v) w c d = elim c [ ]
CutWalk-trans (some u) none w c d = elim c [ ]
CutWalk-trans (some u) (some v) none c d = elim d [ ]
CutWalk-trans (some u) (some v) (some w) c d = Piece-trans u v w c d

pub Cut-refl : (ps : List Person) → Cut ps ps
Cut-refl [] = tt
Cut-refl (p ∷ ps) = ((refl, CutWalk-refl p.walk), Cut-refl ps)

pub Cut-trans : (ps qs rs : List Person) → Cut ps qs → Cut qs rs → Cut ps rs
Cut-trans [] [] rs c d = d
Cut-trans [] (q ∷ qs) rs c d = elim c [ ]
Cut-trans (p ∷ ps) [] rs c d = elim c [ ]
Cut-trans (p ∷ ps) (q ∷ qs) [] c d = elim d [ ]
Cut-trans (p ∷ ps) (q ∷ qs) (r ∷ rs) ((i, w), c) ((j, v), d) =
    ((i ∙ j, CutWalk-trans p.walk q.walk r.walk w v), Cut-trans ps qs rs c d)

pub set_walk-Cut :
    (i : ℕ) (piece edges : List Text) (ps : List Person) (p : Person)
    → find_person i ps ≡ some p
    → p.walk ≡ some edges
    → Piece piece edges
    → Cut (set_walk i piece ps) ps
unfolding set_walk
set_walk-Cut i piece edges [] p found walks part = cc
set_walk-Cut i piece edges (q ∷ ps) p found walks part =
    here (list_beq q.id (decimal i)) found λ later. set_walk-Cut i piece edges ps p later walks part
  where
    here :
        (b : Bool)
        → (if b then some q else find_person i ps) ≡ some p
        → (find_person i ps ≡ some p → Cut (set_walk i piece ps) ps)
        → Cut (if b then record q { walk = some piece } ∷ ps else q ∷ set_walk i piece ps) (q ∷ ps)
    here true this later =
        let old : q.walk ≡ some edges = ap Person.walk (some_inj q p this) ∙ walks in
        ((refl, rw old part), Cut-refl ps)
    here false this later = ((refl, CutWalk-refl q.walk), later this)
