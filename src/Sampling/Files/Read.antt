-- ===== src/Sampling/Files/Read.antt =====
-- What `read_json` returns.
use crownet.Prelude.{
  ◌≡◌, ◌≢◌, refl, Bool, true, false, Option, none, some, List, if◌then◌else◌, text, list_beq,
  list_beq_iff, map, list_eq, nat_eq, Result, ok, err, value_error, attribute_error, or_raise,
  ◌>>=◌, returned, ok_inj,
}
use mathlib.Core.Path.{subst}
use crownet.Sampling.{Stats, Generators}
use crownet.Sampling.Parameters.{
  Parameter, assign_parameter_index, assign_parameter_name_if_missing,
}
use crownet.Sampling.MonteCarlo.{SampleBase, get_samples, generate, transform_from}
use crownet.Sampling.Files.{
  SamplingFile, Sampling, monte_carlo, quadrature, Quadrature, Chaos, monte_carlo_method,
  map_distribution, quadrature_samples, any_samples, sampling_of, read_json,
}

module _ (S : Stats) (G : Generators S.F) (C : Chaos S.F) where
  -- The samples that a sampling keeps.
  abbrev pub kept_samples : Sampling S.F → Option (List (List S.F))
  kept_samples (monte_carlo s) = s.samples
  kept_samples (quadrature q) = q.samples

  -- The samples that come with a sampling are those that it keeps.
  abbrev Kept : List (List S.F) × Sampling S.F → Type 0
  Kept r = kept_samples r.1 ≡ some r.0

  abbrev with_monte_carlo : List (List S.F) × SampleBase S.F → List (List S.F) × Sampling S.F
  with_monte_carlo r = (r.0, monte_carlo r.1)

  -- The samples of a fresh sampling with what it becomes.
  abbrev filled : SampleBase S.F → List (List S.F) → List (List S.F) × SampleBase S.F
  filled s samples =
      let named = assign_parameter_name_if_missing (assign_parameter_index s.parameters) in
      let values = transform_from S G 0 named samples in
      (values, record s { parameters = named; samples = some values })

  get_samples-Kept :
      (s : SampleBase S.F) (r : List (List S.F) × SampleBase S.F)
      → get_samples S G s ≡ ok r
      → Kept (with_monte_carlo r)
  unfolding get_samples
  get_samples-Kept s r ran = go s.samples refl ran
    where
      go :
          (o : Option (List (List S.F)))
          → s.samples ≡ o
          → (elim o [
            | some samples ↦ ok (samples, s)
            | none ↦ generate S G s >>= λ samples. ok (filled s samples)
          ])
            ≡ ok r
          → Kept (with_monte_carlo r)
      go (some samples) kept h =
          subst (λ q. Kept (with_monte_carlo q)) (ok_inj (samples, s) r h) kept
      go none kept h =
          let (samples, generated, made) =
            returned (generate S G s) (λ samples. ok (filled s samples)) r h in
          subst (λ q. Kept (with_monte_carlo q)) (ok_inj (filled s samples) r made) refl

  quadrature_samples-Kept :
      (q : Quadrature S.F)
      → Kept ((quadrature_samples S G C q).0, quadrature (quadrature_samples S G C q).1)
  unfolding quadrature_samples
  quadrature_samples-Kept q = go q.samples refl
    where
      named : List (Parameter S.F)
      named = assign_parameter_name_if_missing (assign_parameter_index q.parameters)

      points : List (List S.F)
      points = C.transpose (
          C.generate_quadrature q.quad_order
            (map (λ p. map_distribution S G C p.distribution) named))

      result : Option (List (List S.F)) → List (List S.F) × Quadrature S.F
      result o = elim o [
        | some samples ↦ (samples, record q { parameters = named })
        | none ↦ (points, record q { parameters = named; samples = some points })
      ]

      go :
          (o : Option (List (List S.F)))
          → q.samples ≡ o
          → Kept ((result o).0, quadrature (result o).1)
      go (some samples) kept = kept
      go none kept = refl

  any_samples-Kept :
      (s : Sampling S.F) (r : List (List S.F) × Sampling S.F) → any_samples S G C s ≡ ok r → Kept r
  unfolding any_samples
  any_samples-Kept (monte_carlo s) r ran =
      let (q, got, made) = returned (get_samples S G s) (λ q. ok (q.0, monte_carlo q.1)) r ran in
      subst Kept (ok_inj (with_monte_carlo q) r made) (get_samples-Kept s q got)
  any_samples-Kept (quadrature q) r ran =
      subst Kept
        (ok_inj ((quadrature_samples S G C q).0, quadrature (quadrature_samples S G C q).1) r ran)
        (quadrature_samples-Kept q)

  -- A sampling that `read_json` returns keeps its samples, and they are close to those of the file.
  pub read_json-kept :
      (file : SamplingFile S.F) (after : Sampling S.F)
      → read_json S G C file ≡ ok after
      → (values : List (List S.F)) × (kept_samples after ≡ some values)
        × (C.allclose values file.sample_values ≡ true)
  unfolding read_json
  read_json-kept file after ran =
      let (made, chosen, rest) = returned (sampling_of S G C file) from_made after ran in
      let (sampling, there, more) =
        returned (or_raise made attribute_error) from_sampling after rest in
      let (r, sampled, compared) = returned (any_samples S G C sampling) from_samples after more in
      close r (any_samples-Kept sampling r sampled) (C.allclose r.0 file.sample_values) refl
        compared
    where
      from_samples : List (List S.F) × Sampling S.F → Result (Sampling S.F)
      from_samples r = if C.allclose r.0 file.sample_values then ok r.1 else err value_error

      from_sampling : Sampling S.F → Result (Sampling S.F)
      from_sampling sampling = any_samples S G C sampling >>= from_samples

      from_made : Option (Sampling S.F) → Result (Sampling S.F)
      from_made made = or_raise made attribute_error >>= from_sampling

      close :
          (r : List (List S.F) × Sampling S.F)
          → Kept r
          → (b : Bool) → C.allclose r.0 file.sample_values ≡ b
          → (if b then ok r.1 else err value_error) ≡ ok after
          → (values : List (List S.F)) × (kept_samples after ≡ some values)
            × (C.allclose values file.sample_values ≡ true)
      close r kept true near h = (r.0, rw (← ok_inj r.1 after h) kept, near)
      close r kept false near h = cc

  -- A file that names no class of a sampling is refused with an `AttributeError`.
  pub read_json_unknown :
      (file : SamplingFile S.F)
      → monte_carlo_method file.sampling_method ≡ none
      → file.sampling_method ≢ text "SampleBaseQuadraturePoints"
      → read_json S G C file ≡ err attribute_error
  unfolding read_json sampling_of
  read_json_unknown file unknown other = rw (chosen, read_json) refl
    where
      apart :
          (b : Bool)
          → list_beq file.sampling_method (text "SampleBaseQuadraturePoints") ≡ b
          → list_beq file.sampling_method (text "SampleBaseQuadraturePoints") ≡ false
      apart true h =
          elim (other
            ((list_beq_iff file.sampling_method (text "SampleBaseQuadraturePoints")).0 h)) [ ]
      apart false h = h

      chosen : sampling_of S G C file ≡ ok none
      chosen =
          rw
            (
              unknown,
              apart (list_beq file.sampling_method (text "SampleBaseQuadraturePoints")) refl,
              sampling_of,
            )
            refl
