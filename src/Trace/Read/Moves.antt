-- ===== src/Trace/Read/Moves.antt =====
-- clean_sumo_traces.py: the distances and speeds of `row`.
use crownet.Floats.{Floats}
use crownet.Prelude.{ℕ, ◌≡◌, ◌∙◌, refl, ap, List, [], ◌∷◌, ok, ◌>>=◌}
use crownet.Trace.Read.{BmRow, reshape, set_last, last_or, but_last, shifted, moved, moves_of, row}

module _ {A : Type 0} where
  last_or-set_last : (u v x : A) (xs : List A) → last_or u (set_last v (x ∷ xs)) ≡ v
  last_or-set_last u v x [] = refl
  last_or-set_last u v x (y ∷ xs) = last_or-set_last x v y xs

  but_last-set_last : (v x : A) (xs : List A) → but_last (set_last v (x ∷ xs)) ≡ but_last (x ∷ xs)
  but_last-set_last v x [] = refl
  but_last-set_last v x (y ∷ []) = refl
  but_last-set_last v x (y ∷ z ∷ xs) = ap (λ r. x ∷ r) (but_last-set_last v y (z ∷ xs))

  -- Each point after its predecessor, and the first after itself.
  shifted_lem : (x : A) (xs : List A) → shifted (x ∷ xs) ≡ ok (x ∷ but_last (x ∷ xs))
  shifted_lem x [] = refl
  shifted_lem x (y ∷ []) = refl
  shifted_lem x (y ∷ z ∷ xs) =
      let first = last_or-set_last y x z xs in
      let rest = but_last-set_last x y (z ∷ xs) in rw (first, rest) refl

-- The points of a trace, written out in a row.
abbrev pub flat : {F : Type 0} → List (F × F × F) → List F
flat [] = []
flat ((t, x, y) ∷ points) = t ∷ x ∷ y ∷ flat points

reshape-flat : {F : Type 0} (points : List (F × F × F)) → reshape (flat points) ≡ ok points
unfolding reshape
reshape-flat [] = refl
reshape-flat ((t, x, y) ∷ points) = rw (reshape-flat points) refl

module _ (R : Floats) where
  open R use {F}

  -- The moves from a point along the points that follow it.
  abbrev pub moves : ℕ → F × F × F → List (F × F × F) → List (BmRow F)
  moves id p [] = []
  moves id p (q ∷ points) = moved R id p q ∷ moves id q points

  moves_of-but_last :
      (id : ℕ) (p q : F × F × F) (points : List (F × F × F))
      → moves_of R id (p ∷ but_last (q ∷ points)) (q ∷ points) ≡ moves id p (q ∷ points)
  moves_of-but_last id p q [] = refl
  moves_of-but_last id p q (s ∷ points) =
      ap (λ r. moved R id p q ∷ r) (moves_of-but_last id q s points)

  -- Of the values of a trace of at least one point `row` makes a line for each point, with the distance
  -- and the speed of the move from the point before, and with the move of the first point from itself.
  pub row-moves :
      (id : ℕ) (p : F × F × F) (points : List (F × F × F))
      → row R id (flat (p ∷ points)) ≡ ok (moves id p (p ∷ points))
  unfolding row
  row-moves id p points =
      ap (λ r. r >>= λ all. shifted all >>= λ befores. ok (moves_of R id befores all))
        (reshape-flat (p ∷ points))
      ∙ (ap (λ r. r >>= λ befores. ok (moves_of R id befores (p ∷ points))) (shifted_lem p points)
          ∙ ap ok (moves_of-but_last id p p points))
