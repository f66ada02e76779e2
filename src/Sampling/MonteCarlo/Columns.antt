-- ===== src/Sampling/MonteCarlo/Columns.antt =====
-- The samples that `get_samples` gives: each cell of the generated matrix, transformed once by the
-- distribution of its column.
use crownet.Prelude.{
  ℕ, zero, suc, ◌≡◌, ◌∙◌, refl, sym, ap, none, some, List, [], ◌∷◌, map, list_eq, nat_eq, ok,
}
use crownet.Sampling.{Stats, Generators}
use crownet.Sampling.Parameters.{
  Parameter, transform, assign_index_from, assign_parameter_index, assign_name,
  assign_parameter_name_if_missing,
}
use crownet.Sampling.MonteCarlo.{SampleBase, change_column, generate, transform_from, get_samples}

map-map :
    {A B C : Type 0} (f : B → C) (g : A → B) (h : A → C) (xs : List A)
    → ((a : A) → f (g a) ≡ h a)
    → map f (map g xs) ≡ map h xs
map-map f g h [] same = refl
map-map f g h (x ∷ xs) same = rw (same x, map-map f g h xs same) refl

-- A change of the cells that follow the first ones.
abbrev skip {ℓ} : {A : Type ℓ} → ℕ → (List A → List A) → List A → List A
skip zero change row = change row
skip (suc i) change [] = []
skip (suc i) change (x ∷ row) = x ∷ skip i change row

module _ (S : Stats) where
  -- Each cell of a row by the distribution of its column.
  abbrev pub cellwise : List (Parameter S.F) → List S.F → List S.F
  cellwise [] row = row
  cellwise (p ∷ ps) [] = []
  cellwise (p ∷ ps) (x ∷ row) = transform S p.distribution x ∷ cellwise ps row

  skip-change_column :
      (p : Parameter S.F) (ps : List (Parameter S.F)) (i : ℕ) (row : List S.F)
      → skip (suc i) (cellwise ps) (change_column (transform S p.distribution) i row)
        ≡ skip i (cellwise (p ∷ ps)) row
  unfolding change_column
  skip-change_column p ps zero [] = refl
  skip-change_column p ps zero (x ∷ row) = refl
  skip-change_column p ps (suc i) [] = refl
  skip-change_column p ps (suc i) (x ∷ row) = ap (λ r. x ∷ r) (skip-change_column p ps i row)

  map-same : {A : Type 0} (f : A → A) (xs : List A) → ((a : A) → f a ≡ a) → map f xs ≡ xs
  map-same f [] same = refl
  map-same f (x ∷ xs) same = rw (same x, map-same f xs same) refl

  skip_none : (i : ℕ) (row : List S.F) → skip i (cellwise []) row ≡ row
  skip_none zero row = refl
  skip_none (suc i) [] = refl
  skip_none (suc i) (x ∷ row) = ap (λ r. x ∷ r) (skip_none i row)

  transform_from-skip :
      (G : Generators S.F) (i : ℕ) (ps : List (Parameter S.F)) (samples : List (List S.F))
      → transform_from S G i ps samples ≡ map (skip i (cellwise ps)) samples
  unfolding transform_from
  transform_from-skip G i [] samples = sym (map-same (skip i (cellwise [])) samples (skip_none i))
  transform_from-skip G i (p ∷ ps) samples =
      transform_from-skip G (suc i) ps (map (change_column (transform S p.distribution) i) samples)
      ∙ map-map (skip (suc i) (cellwise ps)) (change_column (transform S p.distribution) i)
          (skip i (cellwise (p ∷ ps))) samples (skip-change_column p ps i)

  -- Names and indices do not count.
  cellwise-assigned :
      (i : ℕ) (ps : List (Parameter S.F)) (row : List S.F)
      → cellwise (assign_parameter_name_if_missing (assign_index_from i ps)) row ≡ cellwise ps row
  unfolding assign_parameter_name_if_missing assign_index_from assign_name
  cellwise-assigned i [] row = refl
  cellwise-assigned i (p ∷ ps) [] = refl
  cellwise-assigned i (p ∷ ps) (x ∷ row) =
      ap (λ r. transform S p.distribution x ∷ r) (cellwise-assigned (suc i) ps row)

  map-ext : {A B : Type 0} (f g : A → B) (xs : List A) → ((a : A) → f a ≡ g a) → map f xs ≡ map g xs
  map-ext f g [] same = refl
  map-ext f g (x ∷ xs) same = rw (same x, map-ext f g xs same) refl

  -- A sampling that has no samples yet and whose generator gives a matrix returns that matrix with
  -- each cell transformed by the distribution of its column, and keeps it: a second call returns the
  -- same samples, not transformed again, and changes nothing.
  pub get_samples-cellwise :
      (G : Generators S.F) (s : SampleBase S.F) (raw : List (List S.F))
      → s.samples ≡ none
      → generate S G s ≡ ok raw
      → (after : SampleBase S.F) × (get_samples S G s ≡ ok (map (cellwise s.parameters) raw, after))
        × (get_samples S G after ≡ ok (map (cellwise s.parameters) raw, after))
  unfolding get_samples assign_parameter_index
  get_samples-cellwise G s raw fresh generated =
      let named : List (Parameter S.F) =
        assign_parameter_name_if_missing (assign_parameter_index s.parameters) in
      let values : transform_from S G 0 named raw ≡ map (cellwise s.parameters) raw =
        transform_from-skip G 0 named raw
        ∙ map-ext (cellwise named) (cellwise s.parameters) raw (cellwise-assigned 0 s.parameters) in
      (
        record s { parameters = named; samples = some (map (cellwise s.parameters) raw) },
        rw (fresh, generated, values) refl,
        refl,
      )
