-- ===== src/Sampling/Tests.antt =====
-- Samplings of numbers in place of floats, with generators that repeat one number.
use crownet.Prelude.{
  value_error, ℕ, zero, suc, ◌+◌, ◌-◌, ◌*◌, ◌/◌, ◌^◌, ◌≡◌, ◌↔◌, ◌≤◌, refl, ap, Bool, true, false,
  some, List, [], ◌∷◌, map, list_eq, nat_eq, ◌==◌, ==_iff, ok, err, text, length, arith, contains,
  range, Bool-cases, inl, inr, decimal, ℕ_discrete, ◌<◌, none,
}
use native.Mathlib.Nat.{pow-suc}
use crownet.Sampling.{Stats, Generators}
use crownet.Sampling.Parameters.{
  Parameter, Distribution, uniform, gaussian, assign_parameter_index,
  assign_parameter_name_if_missing, assign_index_from, assign_name,
}
use crownet.Sampling.MonteCarlo.{
  SampleBase, sobol, halton, new_sample, generate, get_samples, get_sample_sizes_for_convergence,
}
use crownet.Sampling.Files.{
  SamplingFile, Sampling, quadrature, monte_carlo, Chaos, monte_carlo_method, read_json,
}
use crownet.Sampling.Files.Write.{to_dict, read_json-to_dict_ignored}
use crownet.Sampling.Files.Again.{read_json-to_dict}
use crownet.Sampling.MonteCarlo.Columns.{cellwise, get_samples-cellwise}
use crownet.Sampling.MonteCarlo.Sizes.{sensitivity, sizes_accepted}

-- Whether a number is a power of two; the fuel is the number.
abbrev power_within : ℕ → ℕ → Bool
power_within zero n = false
power_within (suc k) n = elim (n == 2 ^ k) [ true ↦ true | false ↦ power_within k n ]

abbrev whole : Stats
whole = record {
  F = ℕ;
  add = λ a b. a + b;
  sub = λ a b. a - b;
  mul = λ a b. a * b;
  div = λ a b. a / b;
  eq = λ a b. a == b;
  one = 1;
  half = 0;
  sqrt12 = 3;
  expon_mean = λ loc scale. loc + scale;
  expon_std = λ loc scale. scale;
  uniform_ppf = λ x loc scale. loc + x * scale;
  norm_ppf = λ x loc scale. loc + x * scale;
  expon_ppf = λ x loc scale. loc + x * scale;
  log2_is_integer = λ n. power_within (suc n) n;
}

abbrev matrix : ℕ → ℕ → List (List ℕ)
matrix d n = map (λ i. map (λ j. i + j) (range d)) (range n)

abbrev counted : Generators ℕ
counted = record {
  qmc_sobol = matrix;
  latin_hypercube = matrix;
  halton = matrix;
  sobol_sample = λ d n. matrix d (n * (2 * d + 2));
}

abbrev unnamed : Distribution ℕ → Parameter ℕ
unnamed d = record { distribution = d; index = 0; name = [] }

abbrev two_parameters : List (Parameter ℕ)
two_parameters = unnamed (uniform 1 4) ∷ unnamed (gaussian 10 2) ∷ []

abbrev three_points : SampleBase ℕ
three_points = new_sample halton two_parameters 3

get_samples-cellwise_example :
    (after : SampleBase ℕ) × (get_samples whole counted three_points
      ≡ ok (map (cellwise whole two_parameters) (matrix 2 3), after))
    × (get_samples whole counted after
        ≡ ok (map (cellwise whole two_parameters) (matrix 2 3), after))
unfolding new_sample generate
get_samples-cellwise_example =
    get_samples-cellwise whole counted three_points (matrix 2 3) refl refl

suc_lt_pow : (k : ℕ) → suc k ≤ 2 ^ k
suc_lt_pow zero = omega arith
suc_lt_pow (suc k) = omega (arith, suc_lt_pow k, pow-suc 2 k)

power_within_sound : (fuel n : ℕ) → power_within fuel n ≡ true → (k : ℕ) × (n ≡ 2 ^ k)
power_within_sound zero n h = cc
power_within_sound (suc k) n h = elim (Bool-cases (n == 2 ^ k)) [
  | inl same ↦ (k, (==_iff n (2 ^ k)).0 same)
  | inr other ↦ power_within_sound k n (rest (n == 2 ^ k) other h)
]
  where
    rest :
        (b : Bool)
        → b ≡ false
        → (elim b [ true ↦ true | false ↦ power_within k n ]) ≡ true
        → power_within k n ≡ true
    rest true e m = cc
    rest false e m = m

power_within_complete : (fuel k : ℕ) → k < fuel → power_within fuel (2 ^ k) ≡ true
power_within_complete zero k h = elim h [ ]
power_within_complete (suc j) k h = elim (ℕ_discrete k j) [
  | yes same ↦ here (2 ^ k == 2 ^ j) ((==_iff (2 ^ k) (2 ^ j)).1 (ap (λ e. 2 ^ e) same))
  | no apart ↦ found (2 ^ k == 2 ^ j) (power_within_complete j k (omega (arith, apart)))
]
  where
    here : (b : Bool) → b ≡ true → (elim b [ true ↦ true | false ↦ power_within j (2 ^ k) ]) ≡ true
    here true e = refl
    here false e = cc

    found :
        (b : Bool)
        → power_within j (2 ^ k) ≡ true
        → (elim b [ true ↦ true | false ↦ power_within j (2 ^ k) ]) ≡ true
    found true rest = refl
    found false rest = rest

whole_log2 : (n : ℕ) → (whole.log2_is_integer n ≡ true) ↔ ((k : ℕ) × (n ≡ 2 ^ k))
whole_log2 n = (
  power_within_sound (suc n) n,
  λ (k, eq). rw eq (power_within_complete (suc (2 ^ k)) k (omega (arith, suc_lt_pow k))),
)

sizes_accepted_example :
    ((rows : List (List ℕ)) × (generate whole counted
          (sensitivity whole counted whole_log2 two_parameters 48)
        ≡ ok rows))
    ↔ (contains
          (get_sample_sizes_for_convergence
            (sensitivity whole counted whole_log2 two_parameters 48))
          48
        ≡ true)
sizes_accepted_example = sizes_accepted whole counted whole_log2 two_parameters 48 (omega arith)

-- Quadrature points that are the orders, and matrices that are close if they have as many rows.
abbrev ordered : Chaos ℕ
ordered = record {
  generate_quadrature = λ order ds. (order ∷ []) ∷ [];
  transpose = λ m. m;
  allclose = λ a b. length a == length b;
}

abbrev quadrature_file : SamplingFile ℕ
quadrature_file = record {
  parameter = two_parameters;
  sampling_method = text "SampleBaseQuadraturePoints";
  sample_size = none;
  quad_order = some 2;
  sample_values = (2 ∷ []) ∷ [];
}

abbrev quadrature_read : Sampling ℕ
quadrature_read = quadrature (record {
  parameters = assign_parameter_name_if_missing (assign_parameter_index two_parameters);
  quad_order = 2;
  samples = some ((2 ∷ []) ∷ []);
})

-- Every matrix is close to every other.
abbrev agreeing : Chaos ℕ
agreeing = record {
  generate_quadrature = ordered.generate_quadrature;
  transpose = ordered.transpose;
  allclose = λ found expected. true;
}

read_json-to_dict_example :
    (file : SamplingFile ℕ) × (after : SampleBase ℕ) × (to_dict whole counted
        (new_sample (sobol false) two_parameters 4)
      ≡ ok (file, after))
    × (read_json whole counted agreeing file ≡ ok (monte_carlo after))
unfolding monte_carlo_method generate new_sample assign_index_from assign_name decimal
read_json-to_dict_example =
    read_json-to_dict whole counted agreeing (sobol false) two_parameters 4 (matrix 2 4) refl refl
      refl (tt, ((refl, tt), tt)) (λ values. refl)

read_json-to_dict_ignored_example :
    (file : SamplingFile ℕ) × (after : SampleBase ℕ) × (to_dict whole counted
        (new_sample (sobol true) two_parameters 3)
      ≡ ok (file, after))
    × (read_json whole counted ordered file ≡ err value_error)
read_json-to_dict_ignored_example =
    read_json-to_dict_ignored whole counted ordered two_parameters 3 refl refl
