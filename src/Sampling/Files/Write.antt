-- ===== src/Sampling/Files/Write.antt =====
-- `to_dict` of sampling/Base.py with the `args` of sampling/MonteCarlo.py, and what `read_json` makes
-- of it.
use crownet.Prelude.{
  ℕ, suc, ◌≡◌, ◌∙◌, refl, true, false, none, some, List, [], ◌∷◌, map, length, length-map,
  if◌then◌else◌, Text, text, list_eq, list_beq, nat_eq, Result, ok, err, value_error, ◌>>=◌,
}
use crownet.Sampling.{Stats, Generators}
use crownet.Sampling.Parameters.{
  Parameter, transform, assign_parameter_index, assign_parameter_name_if_missing,
}
use crownet.Sampling.MonteCarlo.{
  SampleBase, Method, sobol, saltelli, halton, latin_hypercube, new_sample, get_samples, generate,
  check_convergence, transform_from, change_column,
}
use crownet.Sampling.Files.{
  SamplingFile, Chaos, monte_carlo_method, sampling_of, any_samples, read_json,
}

-- `self.__class__.__name__`
abbrev pub class_name : Method → Text
class_name (sobol ignore) = text "SampleBaseSobol"
class_name (saltelli for_sensitivity ignore) = text "SampleBaseSaltelli"
class_name latin_hypercube = text "SampleBaseLatinHypercube"
class_name halton = text "SampleBaseHalton"

-- `params[s.get_name()] = attributes_`
abbrev pub put_parameter : {F : Type 0} → Parameter F → List (Parameter F) → List (Parameter F)
put_parameter p [] = p ∷ []
put_parameter p (q ∷ qs) =
    let rest = put_parameter p qs in if list_beq q.name p.name then p ∷ qs else q ∷ rest

abbrev pub put_parameters :
    {F : Type 0} → List (Parameter F) → List (Parameter F) → List (Parameter F)
put_parameters [] params = params
put_parameters (p ∷ ps) params = put_parameters ps (put_parameter p params)

module _ (S : Stats) (G : Generators S.F) where
  unfoldable pub to_dict : SampleBase S.F → Result (SamplingFile S.F × SampleBase S.F)
  to_dict s = get_samples S G s >>= λ first. get_samples S G first.1 >>= λ second. ok (
    record {
      parameter = put_parameters first.1.parameters [];
      sampling_method = class_name s.method;
      sample_size = some (length second.0);
      quad_order = none;
      sample_values = first.0;
    },
    second.1,
  )

  pub length-transform_from :
      (i : ℕ) (ps : List (Parameter S.F)) (samples : List (List S.F))
      → length (transform_from S G i ps samples) ≡ length samples
  unfolding transform_from
  length-transform_from i [] samples = refl
  length-transform_from i (p ∷ ps) samples =
      length-transform_from (suc i) ps (map (change_column (transform S p.distribution) i) samples)
      ∙ length-map (change_column (transform S p.distribution) i) samples

  module _ (C : Chaos S.F) where
    -- A Sobol sampling that is told to ignore the convergence, of a size whose logarithm is not whole
    -- and for which the generator gives that many rows: `to_dict` makes a file of it, and `read_json`
    -- refuses this file with a ValueError, since the flag is not in it.
    pub read_json-to_dict_ignored :
        (ps : List (Parameter S.F)) (size : ℕ)
        → length (G.qmc_sobol (length ps) size) ≡ size
        → S.log2_is_integer size ≡ false
        → (file : SamplingFile S.F) × (after : SampleBase S.F) × (to_dict
              (new_sample (sobol true) ps size)
            ≡ ok (file, after))
          × (read_json S G C file ≡ err value_error)
    unfolding to_dict get_samples generate check_convergence new_sample read_json sampling_of
        any_samples monte_carlo_method
    read_json-to_dict_ignored ps size rows odd =
        let named = assign_parameter_name_if_missing (assign_parameter_index ps) in
        let values = transform_from S G 0 named (G.qmc_sobol (length ps) size) in
        let counted : length values ≡ size =
          length-transform_from 0 named (G.qmc_sobol (length ps) size) ∙ rows in
        (_, _, refl, rw (counted, odd) refl)
