-- ===== src/Evaluation/Surrogate.antt =====
-- SurrogateModels.py, EnsembleSensitivityAnalysis.py and ForwardPropagation.py, and
-- `SurrogateModelBasedSensitivityAnalysis`.
use crownet.Floats.{Floats}
use crownet.Prelude.{
  ℕ, zero, suc, ◌+◌, ◌==◌, ◌≡◌, arith, Bool, false, Option, none, some, List, [], ◌∷◌, ◌++◌,
  if◌then◌else◌, Text, list_eq, nat_eq, length, get_elem?, Result, ok, err, value_error,
  index_error, not_implemented_error, ◌>>=◌, or_raise,
}
use crownet.Sampling.Parameters.{Parameter}
use crownet.Evaluation.{Tools, IndexRow, get_sensitivity_indices_for_time}

-- `samples[indices, :]`
abbrev pub rows_at : {A : Type 0} → List ℕ → List A → Result (List A)
rows_at [] xs = ok []
rows_at (i ∷ is) xs = do
  x ← or_raise (get_elem? xs i) index_error
  rest ← rows_at is xs
  ok (x ∷ rest)

-- How many columns a matrix has, by its first row.
abbrev columns : {A : Type 0} → List (List A) → ℕ
columns [] = 0
columns (r ∷ rows) = length r

module _ (R : Floats) (T : Tools R) where
  open R use {F}

  -- `KrigingModel`
  pub record Model : Type 0 where
    pub model : Option T.Kriging
    pub y_learn : Option (List F)
    pub y_pred : Option (List F)
    pub train_set_indices : Option (List ℕ)

  -- `_construct`, for two or three parameters.
  unfoldable pub construct_kriging : Model → List (List F) → List F → Result Model
  construct_kriging m x y =
      if columns x == 2
      then ok (record m { model = some (T.universal_kriging x y); y_learn = some y })
      else if columns x == 3
      then ok (record m { model = some (T.universal_kriging_3d x y); y_learn = some y })
      else err not_implemented_error

  abbrev subset : {A : Type 0} → Option (List ℕ) → List A → Result (List A)
  subset none xs = ok xs
  subset (some is) xs = rows_at is xs

  unfoldable pub construct : Model → List (List F) → List F → Result Model
  unfolding construct_kriging
  construct m x y = do
    x' ← subset m.train_set_indices x
    y' ← subset m.train_set_indices y
    construct_kriging m x' y'

  -- `evaluate`, which raises ValueError before a model is there.
  unfoldable pub evaluate : Model → List (List F) → Result (List F × Model)
  evaluate m x = elim m.model [
    | none ↦ err value_error
    | some k ↦ ok (T.execute k x, record m { y_pred = some (T.execute k x) })
  ]

  -- A sample base: whether it is a `SampleBaseSaltelli`, its samples, its parameters, and the indices of
  -- its independent samples.
  pub record Samples : Type 0 where
    pub is_saltelli : Bool
    pub samples : List (List F)
    pub parameters : List (Parameter F)
    pub independent : List ℕ

  -- The loop of `SurrogateModelBasedSensitivityAnalysis`: one model for each time.
  unfoldable pub surrogate_indices :
      Samples → Samples → F → List (Text × List F) → Model → Result (List (IndexRow F) × Model)
  surrogate_indices base surrogate threshold [] m = ok ([], m)
  surrogate_indices base surrogate threshold ((time, qoi) ∷ groups) m = do
    built ← construct m base.samples qoi
    found ← evaluate built surrogate.samples
    here ← get_sensitivity_indices_for_time R T base.parameters threshold time found.0
    rest ← surrogate_indices base surrogate threshold groups found.1
    ok (here ++ rest.0, rest.1)

  -- `SurrogateModelBasedSensitivityAnalysis(...)`, with the check of the class that it inherits from, and
  -- `get_results`.
  unfoldable pub surrogate_analysis :
      Samples → Samples → F → List (Text × List F) → Model → Result (List (IndexRow F) × Model)
  surrogate_analysis base surrogate threshold groups m =
      if base.is_saltelli
      then surrogate_indices base surrogate threshold groups m
      else err value_error

  -- `EnsembleSensitivityAnalysis`. `splits` is what `ShuffleSplit` gives, each part sorted, for a number
  -- of splits; the indices are kept from the first call on.
  pub record Ensemble : Type 0 where
    pub nr_ensembles : ℕ
    pub indices : Option (List (List ℕ))
    pub model : Model

  unfoldable pub get_train_data_indices : (ℕ → List (List ℕ)) → Ensemble → List (List ℕ) × Ensemble
  get_train_data_indices splits e = elim e.indices [
    | none ↦ (splits e.nr_ensembles, record e { indices = some (splits e.nr_ensembles) })
    | some kept ↦ (kept, e)
  ]

  -- The rows of each model under its number.
  unfoldable pub ensemble_loop :
      Samples
      → Samples
      → F
      → List (Text × List F)
      → List (List ℕ)
      → ℕ
      → ℕ
      → Model
      → Result (List (ℕ × List (IndexRow F)) × Model)
  ensemble_loop base surrogate threshold groups indices zero i m = ok ([], m)
  ensemble_loop base surrogate threshold groups indices (suc n) i m = do
    chosen ← or_raise (get_elem? indices i) index_error
    here ←
        surrogate_analysis base surrogate threshold groups
          (record m { train_set_indices = some chosen })
    rest ← ensemble_loop base surrogate threshold groups indices n (i + 1) here.1
    ok ((i, here.0) ∷ rest.0, rest.1)

  unfoldable pub ensemble_results :
      (ℕ → List (List ℕ))
      → Samples
      → Samples
      → F
      → List (Text × List F)
      → Ensemble
      → Result (List (ℕ × List (IndexRow F)) × Model)
  unfolding get_train_data_indices
  ensemble_results splits base surrogate threshold groups e =
      let found = get_train_data_indices splits e in
      ensemble_loop base surrogate threshold groups found.0 e.nr_ensembles 0 e.model

  -- `ForwardPropagationAnalysis`: the statistics of the independent values of each time, and the values.
  unfoldable pub forward_results : Samples → List (Text × List F) → Result (List (Text × T.Stats))
  forward_results base [] = ok []
  forward_results base ((time, qoi) ∷ groups) = do
    independent ← rows_at base.independent qoi
    rest ← forward_results base groups
    ok ((time, T.describe independent) ∷ rest)

  unfoldable pub get_independent_qoi_vals :
      Samples → List (Text × List F) → Result (List (Text × List F))
  get_independent_qoi_vals base [] = ok []
  get_independent_qoi_vals base ((time, qoi) ∷ groups) = do
    independent ← rows_at base.independent qoi
    rest ← get_independent_qoi_vals base groups
    ok ((time, independent) ∷ rest)

  -- Whatever is to be analysed: an ensemble of at least one model over samples that are not Saltelli's has
  -- no results, if there are indices for its first model, although its own class asks for no such samples.
  ensemble_results_refused :
      (splits : ℕ → List (List ℕ)) (base surrogate : Samples) (threshold : F)
      (groups : List (Text × List F)) (e : Ensemble) (n : ℕ) (chosen : List ℕ)
      → base.is_saltelli ≡ false
      → e.nr_ensembles ≡ suc n
      → get_elem? (get_train_data_indices splits e).0 0 ≡ some chosen
      → ensemble_results splits base surrogate threshold groups e ≡ err value_error
  unfolding ensemble_results ensemble_loop surrogate_analysis
  ensemble_results_refused splits base surrogate threshold groups e n chosen plain size first =
      ground arith
