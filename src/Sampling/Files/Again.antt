-- ===== src/Sampling/Files/Again.antt =====
-- A sampling that is written by `to_dict` and read again by `read_json`.
use crownet.Prelude.{
  ℕ, suc, ◌≡◌, ◌∙◌, refl, sym, ap, true, false, none, some, List, [], ◌∷◌, ◌++◌, map, length, Text,
  list_eq, list_beq, nat_eq, ok,
}
use mathlib.Core.List.{append_assoc, append-nil}
use crownet.Sampling.{Stats, Generators}
use crownet.Sampling.Parameters.{
  Parameter, assign_name, assign_index_from, assign_parameter_index,
  assign_parameter_name_if_missing,
}
use crownet.Sampling.MonteCarlo.{
  SampleBase, Method, sobol, saltelli, halton, latin_hypercube, new_sample, get_samples, generate,
  get_saltelli_sample_size, check_multiplicator, get_matrix_multiplicator, transform_from,
}
use crownet.Sampling.Files.{
  SamplingFile, Sampling, monte_carlo, Chaos, monte_carlo_method, sampling_of, any_samples,
  read_json,
}
use crownet.Sampling.Files.Write.{
  class_name, put_parameter, put_parameters, to_dict, length-transform_from,
}

module _ {F : Type 0} where
  -- The parameters with their numbers and names.
  abbrev pub named_from : ℕ → List (Parameter F) → List (Parameter F)
  named_from i ps = map assign_name (assign_index_from i ps)

  -- No parameter of the list has the name `p.name`.
  abbrev IsFresh : Parameter F → List (Parameter F) → Type 0
  IsFresh p [] = Unit
  IsFresh p (q ∷ qs) = (list_beq q.name p.name ≡ false) × IsFresh p qs

  -- No parameter of the second list has the name of an earlier one or of one of the first list.
  abbrev pub IsNew : List (Parameter F) → List (Parameter F) → Type 0
  IsNew seen [] = Unit
  IsNew seen (p ∷ ps) = IsFresh p seen × IsNew (seen ++ (p ∷ [])) ps

  put_parameter-IsFresh :
      (p : Parameter F) (seen : List (Parameter F))
      → IsFresh p seen
      → put_parameter p seen ≡ seen ++ (p ∷ [])
  put_parameter-IsFresh p [] h = refl
  put_parameter-IsFresh p (q ∷ qs) (other, rest) =
      rw other (ap (λ r. q ∷ r) (put_parameter-IsFresh p qs rest))

  put_parameters-IsNew :
      (ps seen : List (Parameter F)) → IsNew seen ps → put_parameters ps seen ≡ seen ++ ps
  put_parameters-IsNew [] seen h = sym (append-nil seen)
  put_parameters-IsNew (p ∷ ps) seen (fresh, rest) =
      rw (put_parameter-IsFresh p seen fresh)
        (put_parameters-IsNew ps (seen ++ (p ∷ [])) rest ∙ append_assoc seen (p ∷ []) ps)

  assign_name_again :
      (p : Parameter F) (i : ℕ)
      → assign_name (record (assign_name (record p { index = i })) { index = i })
        ≡ assign_name (record p { index = i })
  unfolding assign_name
  assign_name_again p i = go p.name
    where
      go :
          (name : Text)
          → assign_name (record (assign_name (record p { index = i; name = name })) { index = i })
            ≡ assign_name (record p { index = i; name = name })
      go [] = refl
      go (c ∷ name) = refl

  named_twice : (i : ℕ) (ps : List (Parameter F)) → named_from i (named_from i ps) ≡ named_from i ps
  unfolding assign_index_from
  named_twice i [] = refl
  named_twice i (p ∷ ps) =
      ap (λ q. q ∷ named_from (suc i) (named_from (suc i) ps)) (assign_name_again p i)
      ∙ ap (λ r. assign_name (record p { index = i }) ∷ r) (named_twice (suc i) ps)

  length-named_from : (i : ℕ) (ps : List (Parameter F)) → length (named_from i ps) ≡ length ps
  unfolding assign_index_from
  length-named_from i [] = refl
  length-named_from i (p ∷ ps) = ap suc (length-named_from (suc i) ps)

module _ (S : Stats) (G : Generators S.F) where
  -- The rows depend only on how many parameters there are.
  generate-length :
      (m : Method) (ps qs : List (Parameter S.F)) (size : ℕ)
      → length ps ≡ length qs
      → generate S G (new_sample m ps size) ≡ generate S G (new_sample m qs size)
  unfolding generate new_sample get_saltelli_sample_size check_multiplicator
      get_matrix_multiplicator
  generate-length (sobol ignore) ps qs size same = rw same refl
  generate-length (saltelli for_sensitivity ignore) ps qs size same = rw same refl
  generate-length latin_hypercube ps qs size same = rw same refl
  generate-length halton ps qs size same = rw same refl

  -- A fresh sampling after its samples have been made of the rows.
  abbrev pub sampled : Method → List (Parameter S.F) → ℕ → List (List S.F) → SampleBase S.F
  sampled m ps size rows = record (new_sample m (named_from 0 ps) size) {
    samples = some (transform_from S G 0 (named_from 0 ps) rows);
  }

  fresh-get_samples :
      (m : Method) (ps : List (Parameter S.F)) (size : ℕ) (rows : List (List S.F))
      → generate S G (new_sample m ps size) ≡ ok rows
      → get_samples S G (new_sample m ps size)
        ≡ ok (transform_from S G 0 (named_from 0 ps) rows, sampled m ps size rows)
  unfolding get_samples new_sample assign_parameter_index assign_parameter_name_if_missing
  fresh-get_samples m ps size rows made = rw made refl

  -- Parameters that have their numbers and names already give the same samples.
  fresh_again :
      (m : Method) (ps : List (Parameter S.F)) (size : ℕ) (rows : List (List S.F))
      → generate S G (new_sample m ps size) ≡ ok rows
      → get_samples S G (new_sample m (named_from 0 ps) size)
        ≡ ok (transform_from S G 0 (named_from 0 ps) rows, sampled m ps size rows)
  fresh_again m ps size rows made =
      fresh-get_samples m (named_from 0 ps) size rows
        (generate-length m (named_from 0 ps) ps size (length-named_from 0 ps) ∙ made)
      ∙ ap
          (λ qs. ok (
            transform_from S G 0 qs rows,
            record (new_sample m qs size) { samples = some (transform_from S G 0 qs rows) },
          ))
          (named_twice 0 ps)

  -- What `to_dict` makes of a sampling.
  abbrev pub written : Method → List (Parameter S.F) → List (List S.F) → SamplingFile S.F
  written m params values = record {
    parameter = params;
    sampling_method = class_name m;
    sample_size = some (length values);
    quad_order = none;
    sample_values = values;
  }

  fresh-to_dict :
      (m : Method) (ps : List (Parameter S.F)) (size : ℕ) (rows : List (List S.F))
      → generate S G (new_sample m ps size) ≡ ok rows
      → IsNew [] (named_from 0 ps)
      → to_dict S G (new_sample m ps size)
        ≡ ok (
          written m (named_from 0 ps) (transform_from S G 0 (named_from 0 ps) rows),
          sampled m ps size rows,
        )
  unfolding to_dict get_samples new_sample
  fresh-to_dict m ps size rows made new =
      rw (fresh-get_samples m ps size rows made, put_parameters-IsNew (named_from 0 ps) [] new) refl

  module _ (C : Chaos S.F) where
    sampling_of-written :
        (m : Method) (params : List (Parameter S.F)) (values : List (List S.F))
        → monte_carlo_method (class_name m) ≡ some m
        → sampling_of S G C (written m params values)
          ≡ ok (some (monte_carlo (new_sample m params (length values))))
    unfolding sampling_of
    sampling_of-written m params values known = rw (known, sampling_of) refl

    any_samples-again :
        (s : SampleBase S.F) (r : List (List S.F) × SampleBase S.F)
        → get_samples S G s ≡ ok r
        → any_samples S G C (monte_carlo s) ≡ ok (r.0, monte_carlo r.1)
    unfolding any_samples
    any_samples-again s r made = rw (made, any_samples) refl

    -- If the sampling of a file gives the samples of the file, `read_json` returns it.
    read_json-same :
        (file : SamplingFile S.F) (s after : Sampling S.F)
        → sampling_of S G C file ≡ ok (some s)
        → any_samples S G C s ≡ ok (file.sample_values, after)
        → C.allclose file.sample_values file.sample_values ≡ true
        → read_json S G C file ≡ ok after
    unfolding read_json
    read_json-same file s after chosen made close = rw (chosen, made, close, read_json) refl

    -- A fresh sampling whose class is found again from its name, with its flags, that generates as many
    -- rows as its size, and of whose parameters no two get the same name: `to_dict` returns a file, and
    -- `read_json` makes of this file the sampling as `to_dict` has left it, if values are close to
    -- themselves.
    pub read_json-to_dict :
        (m : Method) (ps : List (Parameter S.F)) (size : ℕ) (rows : List (List S.F))
        → monte_carlo_method (class_name m) ≡ some m
        → generate S G (new_sample m ps size) ≡ ok rows
        → length rows ≡ size
        → IsNew [] (named_from 0 ps)
        → ((values : List (List S.F)) → C.allclose values values ≡ true)
        → (file : SamplingFile S.F) × (after : SampleBase S.F) × (to_dict S G (new_sample m ps size)
            ≡ ok (file, after))
          × (read_json S G C file ≡ ok (monte_carlo after))
    read_json-to_dict m ps size rows known made full new close =
        let values = transform_from S G 0 (named_from 0 ps) rows in
        let counted : length values ≡ size =
          length-transform_from S G 0 (named_from 0 ps) rows ∙ full in
        (
          written m (named_from 0 ps) values,
          sampled m ps size rows,
          fresh-to_dict m ps size rows made new,
          read_json-same (written m (named_from 0 ps) values)
              (monte_carlo (new_sample m (named_from 0 ps) (length values)))
              (monte_carlo (sampled m ps size rows))
              (sampling_of-written m (named_from 0 ps) values known)
              (any_samples-again (new_sample m (named_from 0 ps) (length values))
                (values, sampled m ps size rows) (rw counted (fresh_again m ps size rows made)))
              (close values),
        )
