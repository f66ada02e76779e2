-- ===== src/Sampling/MonteCarlo/Sizes.antt =====
-- Which sizes of a sensitivity sampling are accepted, and what they give.
use crownet.Prelude.{
  ℕ, zero, suc, ◌+◌, ◌-◌, ◌*◌, ◌/◌, ◌%◌, ◌^◌, ◌≤◌, ◌<◌, ◌≡◌, ◌↔◌, ◌∙◌, refl, sym, ap, Bool, true,
  false, not, ◌&&◌, ◌||◌, List, [], ◌∷◌, map, if◌then◌else◌, leb, ◌==◌, ==_iff, filter, range,
  range_from, length, Result, ok, err, ◌>>◌, arith, contains, nat_eq, Bool-cases, inl, inr, dec_lt,
  ℕ_discrete, value_error,
}
use native.Mathlib.Nat.{
  mul-mod_left, mod-add-div', mul-add-div_right, div-eq_of_lt, pow-suc, mul-le-mul_left,
}
use crownet.Sampling.{Stats, Generators}
use crownet.Sampling.Parameters.{Parameter}
use crownet.Sampling.MonteCarlo.{
  SampleBase, saltelli, new_sample, convergence_sizes, get_matrix_multiplicator,
  get_saltelli_sample_size, check_multiplicator, check_convergence, generate,
  get_sample_sizes_for_convergence,
}

-- Quotients and remainders of a product.
ceil_product : (q m : ℕ) → 0 < m → (q * m + m - 1) / m ≡ q
ceil_product q m h = ap (λ n. n / m) same ∙ (mul-add-div_right {m = m} h q (m - 1) ∙ below)
  where
    same : q * m + m - 1 ≡ q * m + (m - 1)
    same = omega arith

    below : q + (m - 1) / m ≡ q
    below = omega (arith, div-eq_of_lt {n = m - 1} {m = m} (omega arith))

product_of : (n m : ℕ) → n % m ≡ 0 → n ≡ n / m * m
product_of n m h = omega (arith, mod-add-div' n m)

-- The numbers of a range, and what a filter keeps.
contains-map_range :
    (f : ℕ → ℕ) (k i n : ℕ) → i ≤ k → k < i + n → contains (map f (range_from i n)) (f k) ≡ true
contains-map_range f k i zero l u = ground arith
contains-map_range f k i (suc n) l u = elim (ℕ_discrete i k) [
  | yes same ↦ here same
  | no apart ↦
      later (f k == f i) (contains-map_range f k (suc i) n (omega (arith, apart)) (omega arith))
]
  where
    here : i ≡ k → (f k == f i || contains (map f (range_from (suc i) n)) (f k)) ≡ true
    here same = rw ((==_iff (f k) (f i)).1 (ap f (sym same))) refl

    later :
        (b : Bool)
        → contains (map f (range_from (suc i) n)) (f k) ≡ true
        → (b || contains (map f (range_from (suc i) n)) (f k)) ≡ true
    later true rest = refl
    later false rest = rest

range-of_contains :
    (f : ℕ → ℕ) (a i n : ℕ) → contains (map f (range_from i n)) a ≡ true → (k : ℕ) × (a ≡ f k)
range-of_contains f a i zero h = cc
range-of_contains f a i (suc n) h = elim (Bool-cases (a == f i)) [
  | inl same ↦ (i, (==_iff a (f i)).0 same)
  | inr other ↦ range-of_contains f a (suc i) n (rest (a == f i) other h)
]
  where
    rest :
        (b : Bool)
        → b ≡ false
        → (b || contains (map f (range_from (suc i) n)) a) ≡ true
        → contains (map f (range_from (suc i) n)) a ≡ true
    rest true e m = cc
    rest false e m = m

contains-filter :
    (p : ℕ → Bool) (xs : List ℕ) (a : ℕ) → contains (filter p xs) a ≡ (contains xs a && p a)
contains-filter p [] a = refl
contains-filter p (x ∷ xs) a = elim (Bool-cases (a == x)) [
  | inl same ↦ kept ((==_iff a x).0 same) (contains-filter p xs a)
  | inr other ↦ ground (arith, other, contains-filter p xs a)
]
  where
    kept :
        a ≡ x
        → contains (filter p xs) a ≡ (contains xs a && p a)
        → contains (filter p (x ∷ xs)) a ≡ (contains (x ∷ xs) a && p a)
    kept eq rest = ground (arith, eq, rest)

-- A power that is large enough to exceed the largest size.
pow_large : (j : ℕ) → 1048576 ≤ 2 ^ (20 + j)
pow_large zero = omega arith
pow_large (suc j) = omega (arith, pow_large j, doubled)
  where
    number : 20 + suc j ≡ suc (20 + j)
    number = omega arith

    doubled : 2 ^ (20 + suc j) ≡ 2 ^ (20 + j) * 2
    doubled = ap (λ e. 2 ^ e) number ∙ pow-suc 2 (20 + j)

listed :
    (f : ℕ → ℕ) (largest count k n : ℕ)
    → n ≤ largest
    → k < count
    → n ≡ f k
    → contains (filter (λ m. leb m largest) (map f (range count))) n ≡ true
listed f largest count k n small inside eq =
    contains-filter (λ m. leb m largest) (map f (range count)) n
    ∙ both (contains (map f (range count)) n) (leb n largest)
        (ap (contains (map f (range count))) eq
          ∙ contains-map_range f k 0 count (omega arith) (omega arith))
        (ground arith)
  where
    both : (b c : Bool) → b ≡ true → c ≡ true → (b && c) ≡ true
    both b c p q = rw (p, q) refl

number_of_listed :
    (f : ℕ → ℕ) (largest count n : ℕ)
    → contains (filter (λ m. leb m largest) (map f (range count))) n ≡ true
    → (k : ℕ) × (n ≡ f k)
number_of_listed f largest count n there = range-of_contains f n 0 count (
    first (contains (map f (range count)) n) (leb n largest)
      (sym (contains-filter (λ m. leb m largest) (map f (range count)) n) ∙ there))
  where
    first : (b c : Bool) → (b && c) ≡ true → b ≡ true
    first true c h = refl
    first false c h = h

small_power : (k f : ℕ) → 2 ≤ f → 2 ^ k * f ≤ 100000 → k < 20
small_power k f two small = elim (dec_lt k 20) [ yes h ↦ h | no h ↦ elim (too_large h) [ ] ]
  where
    too_large : ¬ (k < 20) → ⊥
    too_large h =
        let same : 20 + (k - 20) ≡ k = omega (arith, h) in
        let large : 1048576 ≤ 2 ^ k = rw (← ap (λ e. 2 ^ e) same) (pow_large (k - 20)) in
        omega (arith, large, mul-le-mul_left (2 ^ k) two)

abbrev refused : Bool → Result {0} Unit
refused b = if b then err value_error else ok tt

abbrev accepted : Bool → Result {0} Unit
accepted b = if b then ok tt else err value_error

module _ (S : Stats) (G : Generators S.F)
    (log2_iff : (n : ℕ) → (S.log2_is_integer n ≡ true) ↔ ((k : ℕ) × (n ≡ 2 ^ k))) where
  -- The sensitivity sampling of some parameters and a size.
  abbrev pub sensitivity : List (Parameter S.F) → ℕ → SampleBase S.F
  sensitivity ps n = new_sample (saltelli true false) ps n

  abbrev factor : List (Parameter S.F) → ℕ
  factor ps = 2 * length ps + 2

  generate_power :
      (ps : List (Parameter S.F)) (k : ℕ)
      → generate S G (sensitivity ps (2 ^ k * factor ps)) ≡ ok (G.sobol_sample (length ps) (2 ^ k))
  unfolding generate check_multiplicator check_convergence get_saltelli_sample_size
      get_matrix_multiplicator new_sample
  generate_power ps k =
      rw
        (
          mul-mod_left (2 ^ k) (factor ps),
          ceil_product (2 ^ k) (factor ps) (omega arith),
          (log2_iff (2 ^ k)).1 (k, refl),
        )
        refl

  power_of_ok :
      (ps : List (Parameter S.F)) (n : ℕ) (rows : List (List S.F))
      → generate S G (sensitivity ps n) ≡ ok rows
      → (k : ℕ) × (n ≡ 2 ^ k * factor ps)
  unfolding generate check_multiplicator check_convergence get_saltelli_sample_size
      get_matrix_multiplicator new_sample
  power_of_ok ps n rows h = passed (n % factor ps == 0) (S.log2_is_integer size) refl refl h
    where
      size : ℕ
      size = (n + factor ps - 1) / factor ps

      whole :
          (n % factor ps == 0) ≡ true
          → S.log2_is_integer size ≡ true
          → (k : ℕ) × (n ≡ 2 ^ k * factor ps)
      whole multiple power =
          let exact : n ≡ n / factor ps * factor ps =
            product_of n (factor ps) ((==_iff (n % factor ps) 0).0 multiple) in
          let same : size ≡ n / factor ps =
            ap (λ m. (m + factor ps - 1) / factor ps) exact
            ∙ ceil_product (n / factor ps) (factor ps) (omega arith) in
          let (k, is_power) = (log2_iff size).0 power in
          (k, exact ∙ ap (λ q. q * factor ps) (sym same ∙ is_power))

      passed :
          (multiple power : Bool)
          → (n % factor ps == 0) ≡ multiple
          → S.log2_is_integer size ≡ power
          → (refused (not multiple && true)
              >> accepted power
              >> ok (G.sobol_sample (length ps) size))
            ≡ ok rows
          → (k : ℕ) × (n ≡ 2 ^ k * factor ps)
      passed true true m p e = whole m p
      passed true false m p e = cc
      passed false true m p e = cc
      passed false false m p e = cc

  -- For at most 100000 samples, a sampling of Saltelli that is made for sensitivity analysis and
  -- checks its convergence is generated exactly if the number of samples is among the sizes that
  -- `get_sample_sizes_for_convergence` gives, where `np.log2` tells the powers of two.
  pub sizes_accepted :
      (ps : List (Parameter S.F)) (n : ℕ)
      → n ≤ 100000
      → ((rows : List (List S.F)) × (generate S G (sensitivity ps n) ≡ ok rows))
        ↔ (contains (get_sample_sizes_for_convergence (sensitivity ps n)) n ≡ true)
  unfolding get_sample_sizes_for_convergence convergence_sizes new_sample get_matrix_multiplicator
  sizes_accepted ps n small = (
    λ (rows, made).
        let (k, eq) = power_of_ok ps n rows made in
        listed (λ k. 2 ^ k * factor ps) 100000 20 k n small
          (small_power k (factor ps) (omega arith) (omega (arith, eq))) eq,
    λ there.
        let (k, eq) = number_of_listed (λ k. 2 ^ k * factor ps) 100000 20 n there in
        (
          G.sobol_sample (length ps) (2 ^ k),
          ap (λ m. generate S G (sensitivity ps m)) eq ∙ generate_power ps k,
        ),
  )
