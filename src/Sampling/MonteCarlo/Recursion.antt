-- ===== src/Sampling/MonteCarlo/Recursion.antt =====
-- `get_independent_samples`, which takes itself as its index.
use crownet.Prelude.{ℕ, zero, suc, ◌≡◌, refl, none, List, ok, err, recursion_error}
use crownet.Sampling.{Stats, Generators}
use crownet.Sampling.MonteCarlo.{SampleBase, generate, get_samples, get_independent_samples}
use crownet.Sampling.MonteCarlo.Columns.{get_samples-cellwise}

module _ (S : Stats) (G : Generators S.F) where
  kept_recursion :
      (depth : ℕ) (s : SampleBase S.F) (values : List (List S.F))
      → get_samples S G s ≡ ok (values, s)
      → get_independent_samples S G depth s ≡ err recursion_error
  unfolding get_independent_samples
  kept_recursion zero s values kept = refl
  kept_recursion (suc depth) s values kept = rw (kept, kept_recursion depth s values kept) refl

  -- However deep Python lets calls nest, the independent samples of a sampling that can be generated
  -- are never returned: the call ends with a `RecursionError`.
  pub get_independent_samples_recursion :
      (depth : ℕ) (s : SampleBase S.F) (raw : List (List S.F))
      → s.samples ≡ none
      → generate S G s ≡ ok raw
      → get_independent_samples S G depth s ≡ err recursion_error
  unfolding get_independent_samples
  get_independent_samples_recursion zero s raw fresh generated = refl
  get_independent_samples_recursion (suc depth) s raw fresh generated =
      let (after, now, later) = get_samples-cellwise S G s raw fresh generated in
      rw (now, kept_recursion depth after _ later) refl
