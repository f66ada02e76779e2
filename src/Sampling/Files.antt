-- ===== src/Sampling/Files.antt =====
-- sampling/GaussianQuadrature.py, `ParameterMapper` of Parameter.py, and `read_json` of
-- sampling/utils.py on a file that has been parsed. chaospy's quadrature and `np.allclose` are
-- parameters.
pub mod Read
pub mod Write
pub mod Again
use crownet.Prelude.{
  ℕ, Bool, true, false, Option, none, some, List, [], ◌∷◌, map, if◌then◌else◌, Text, text, list_eq,
  nat_eq, list_beq, Result, ok, err, key_error, value_error, attribute_error, or_raise, ◌>>=◌,
}
use crownet.Sampling.{Stats, Generators}
use crownet.Sampling.Parameters.{
  Distribution, uniform, gaussian, exponential, exponential2, Parameter, exp2_shift, exp_scale,
  assign_parameter_index, assign_parameter_name_if_missing,
}
use crownet.Sampling.MonteCarlo.{
  SampleBase, Method, sobol, saltelli, halton, latin_hypercube, new_sample, get_samples,
}

-- The distributions of chaospy.
pub data ChaosDistribution (F : Type 0) : Type 0 where
  chaos_uniform : F → F → ChaosDistribution F
  chaos_normal : F → F → ChaosDistribution F
  chaos_exponential : F → F → ChaosDistribution F

-- A file of a sampling: its parameters, with the distributions as their classes make them.
pub record SamplingFile (F : Type 0) : Type 0 where
  pub parameter : List (Parameter F)
  pub sampling_method : Text
  pub sample_size : Option ℕ
  pub quad_order : Option ℕ
  pub sample_values : List (List F)

pub record Quadrature (F : Type 0) : Type 0 where
  pub parameters : List (Parameter F)
  pub quad_order : ℕ
  pub samples : Option (List (List F))

pub data Sampling (F : Type 0) : Type 0 where
  monte_carlo : SampleBase F → Sampling F
  quadrature : Quadrature F → Sampling F

-- What chaospy and numpy do: the quadrature points of a joint distribution, a row for each
-- dimension, the transposed matrix, and the comparison of two matrices.
pub record Chaos (F : Type 0) : Type 0 where
  pub generate_quadrature : ℕ → List (ChaosDistribution F) → List (List F)
  pub transpose : List (List F) → List (List F)
  pub allclose : List (List F) → List (List F) → Bool

-- The class of a name, when it takes a `sample_size`.
unfoldable pub monte_carlo_method : Text → Option Method
monte_carlo_method name =
    if list_beq name (text "SampleBaseSaltelli")
    then some (saltelli true false)
    else if list_beq name (text "SampleBaseHalton")
    then some halton
    else if list_beq name (text "SampleBaseSobol")
    then some (sobol false)
    else if list_beq name (text "SampleBaseLatinHypercube")
    then some latin_hypercube
    else none

module _ (S : Stats) (G : Generators S.F) (C : Chaos S.F) where
  -- `ParameterMapper._map`
  unfoldable pub map_distribution : Distribution S.F → ChaosDistribution S.F
  map_distribution (uniform lower upper) = chaos_uniform lower upper
  map_distribution (gaussian mean std) = chaos_normal mean std
  map_distribution (exponential lamda x_shift) = chaos_exponential x_shift (exp_scale S lamda)
  map_distribution (exponential2 mean std) = chaos_exponential (exp2_shift S mean std) std

  -- `SampleBaseQuadraturePoints.get_samples`
  unfoldable pub quadrature_samples : Quadrature S.F → List (List S.F) × Quadrature S.F
  unfolding map_distribution
  quadrature_samples q =
      let named = assign_parameter_name_if_missing (assign_parameter_index q.parameters) in
      elim q.samples [
        | some samples ↦ (samples, record q { parameters = named })
        | none ↦
            let points = C.transpose (
              C.generate_quadrature q.quad_order
                (map (λ p. map_distribution p.distribution) named)) in
            (points, record q { parameters = named; samples = some points })
      ]

  unfoldable pub any_samples : Sampling S.F → Result (List (List S.F) × Sampling S.F)
  unfolding quadrature_samples
  any_samples (monte_carlo s) = get_samples S G s >>= λ r. ok (r.0, monte_carlo r.1)
  any_samples (quadrature q) = ok ((quadrature_samples q).0, quadrature (quadrature_samples q).1)

  -- The choice of the class. A `ValueError` for another name is made and not raised.
  unfoldable pub sampling_of : SamplingFile S.F → Result (Option (Sampling S.F))
  unfolding monte_carlo_method
  sampling_of file = elim (monte_carlo_method file.sampling_method) [
    | some method ↦ or_raise file.sample_size key_error >>= λ size.
        ok (some (monte_carlo (new_sample method file.parameter size)))
    | none ↦
        if list_beq file.sampling_method (text "SampleBaseQuadraturePoints")
        then (or_raise file.quad_order key_error >>= λ order. ok (
            some (
              quadrature
                (record { parameters = file.parameter; quad_order = order; samples = none }))))
        else ok none
  ]

  -- `read_json`
  unfoldable pub read_json : SamplingFile S.F → Result (Sampling S.F)
  unfolding sampling_of any_samples
  read_json file = do
    made ← sampling_of file
    sampling ← or_raise made attribute_error
    (samples, after) ← any_samples sampling
    if C.allclose samples file.sample_values then ok after else err value_error
