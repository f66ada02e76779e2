-- ===== src/Sampling/MonteCarlo.antt =====
-- MonteCarlo.py: the samplings, their checks and the samples that they keep.
pub mod Columns
pub mod Sizes
pub mod Recursion
use crownet.Prelude.{
  ℕ, zero, suc, ◌+◌, ◌-◌, ◌*◌, ◌/◌, ◌%◌, ◌^◌, Bool, true, false, not, ◌&&◌, Option, none, some,
  List, [], ◌∷◌, ◌++◌, map, if◌then◌else◌, leb, ◌==◌, filter, range, length, get_elem?, Result, ok,
  err, value_error, index_error, recursion_error, or_raise, ◌>>=◌, ◌>>◌,
}
use crownet.Sampling.{Stats, Generators}
use crownet.Sampling.Parameters.{
  Distribution, Parameter, transform, assign_parameter_index, assign_parameter_name_if_missing,
}

-- The classes, with the flags of their own: for Sobol `is_ignore_convergence`; for Saltelli also
-- `is_use_for_sensitivity_analysis`, which stands first.
pub data Method : Type 0 where
  sobol : Bool → Method
  saltelli : Bool → Bool → Method
  latin_hypercube halton : Method

pub record SampleBase (F : Type 0) : Type 0 where
  pub method : Method
  pub parameters : List (Parameter F)
  pub sample_size : ℕ
  pub max_sample_size : ℕ
  pub samples : Option (List (List F))

-- The constructors.
unfoldable pub new_sample : {F : Type 0} → Method → List (Parameter F) → ℕ → SampleBase F
new_sample method parameters sample_size = record {
  method = method;
  parameters = parameters;
  sample_size = sample_size;
  max_sample_size = 100000;
  samples = none;
}

-- `sizes = 2 ** np.arange(20)`, times the factor of the class, as far as they are small enough.
unfoldable pub convergence_sizes : ℕ → ℕ → List ℕ
convergence_sizes factor max_sample_size =
    filter (λ size. leb size max_sample_size) (map (λ k. 2 ^ k * factor) (range 20))

module _ {F : Type 0} where
  unfoldable pub get_matrix_multiplicator : SampleBase F → ℕ
  get_matrix_multiplicator s = 2 * length s.parameters + 2

  -- `int(np.ceil(sample_size / multiplicator))`; the sizes are far below the precision of a float.
  unfoldable pub get_saltelli_sample_size : SampleBase F → ℕ
  unfolding get_matrix_multiplicator
  get_saltelli_sample_size s =
      (s.sample_size + get_matrix_multiplicator s - 1) / get_matrix_multiplicator s

  unfoldable pub check_multiplicator : Bool → SampleBase F → Result {0} Unit
  unfolding get_matrix_multiplicator
  check_multiplicator for_sensitivity s =
      if not (s.sample_size % get_matrix_multiplicator s == 0) && for_sensitivity
      then err value_error
      else ok tt

  unfoldable pub get_sample_sizes_for_convergence : SampleBase F → List ℕ
  unfolding convergence_sizes get_matrix_multiplicator
  get_sample_sizes_for_convergence s = elim s.method [
    | saltelli for_sensitivity ignore ↦
        convergence_sizes (get_matrix_multiplicator s) s.max_sample_size
    | sobol ignore ↦ convergence_sizes 1 s.max_sample_size
    | latin_hypercube ↦ []
    | halton ↦ []
  ]

  -- `get_index_independent_samples`
  pub get_index_independent_samples : SampleBase F → List ℕ
  unfolding get_matrix_multiplicator
  get_index_independent_samples s = elim s.method [
    | saltelli for_sensitivity ignore ↦ range (2 * s.sample_size / get_matrix_multiplicator s)
    | sobol ignore ↦ range s.sample_size
    | latin_hypercube ↦ range s.sample_size
    | halton ↦ range s.sample_size
  ]

  -- `samples[:, index] = f(samples[:, index])`, for rows that have a cell at the index: the generators
  -- are asked for as many columns as there are parameters.
  unfoldable pub change_column : (F → F) → ℕ → List F → List F
  change_column f i [] = []
  change_column f zero (x ∷ row) = f x ∷ row
  change_column f (suc i) (x ∷ row) = x ∷ change_column f i row

module _ (S : Stats) (G : Generators S.F) where
  -- `_check_sample_size_convergence`
  unfoldable pub check_convergence : Bool → ℕ → Result {0} Unit
  check_convergence ignore sample_size =
      if ignore then ok tt else if S.log2_is_integer sample_size then ok tt else err value_error

  -- `generate_samples` of each class. The code generates a sampling of Saltelli before it checks
  -- the size, which makes no difference to what it returns or raises.
  abbrev sobol_samples : Bool → SampleBase S.F → Result (List (List S.F))
  sobol_samples ignore s =
      check_convergence ignore s.sample_size >> ok (G.qmc_sobol (length s.parameters) s.sample_size)

  abbrev saltelli_samples : Bool → Bool → SampleBase S.F → Result (List (List S.F))
  saltelli_samples for_sensitivity ignore s =
      check_multiplicator for_sensitivity s
      >> check_convergence ignore (get_saltelli_sample_size s)
      >> ok (G.sobol_sample (length s.parameters) (get_saltelli_sample_size s))

  abbrev latin_hypercube_samples : SampleBase S.F → Result (List (List S.F))
  latin_hypercube_samples s = ok (G.latin_hypercube (length s.parameters) s.sample_size)

  abbrev halton_samples : SampleBase S.F → Result (List (List S.F))
  halton_samples s = ok (G.halton (length s.parameters) s.sample_size)

  unfoldable pub generate : SampleBase S.F → Result (List (List S.F))
  unfolding check_convergence check_multiplicator get_saltelli_sample_size
  generate s = elim s.method [
    | sobol ignore ↦ sobol_samples ignore s
    | saltelli for_sensitivity ignore ↦ saltelli_samples for_sensitivity ignore s
    | latin_hypercube ↦ latin_hypercube_samples s
    | halton ↦ halton_samples s
  ]

  -- The loop of `transform_samples` from an index on.
  unfoldable pub transform_from : ℕ → List (Parameter S.F) → List (List S.F) → List (List S.F)
  unfolding change_column
  transform_from i [] samples = samples
  transform_from i (p ∷ ps) samples =
      transform_from (suc i) ps (map (change_column (transform S p.distribution) i) samples)

  -- `get_samples`
  unfoldable pub get_samples : SampleBase S.F → Result (List (List S.F) × SampleBase S.F)
  unfolding generate transform_from
  get_samples s = elim s.samples [
    | some samples ↦ ok (samples, s)
    | none ↦ generate s >>= λ samples.
        let named = assign_parameter_name_if_missing (assign_parameter_index s.parameters) in
        let values = transform_from 0 named samples in
        ok (values, record s { parameters = named; samples = some values })
  ]

  -- `get_independent_samples` of Saltelli takes itself as the index; `depth` is how deep Python lets
  -- calls nest. An array of floats is no index.
  pub get_independent_samples : ℕ → SampleBase S.F → Result (List (List S.F))
  get_independent_samples zero s = err recursion_error
  get_independent_samples (suc depth) s = do
    (samples, after) ← get_samples s
    indices ← get_independent_samples depth after
    err index_error
