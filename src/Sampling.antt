-- ===== src/Sampling.antt =====
-- The samplings of analysis/uq/uq/PreProcessing: the parameters of Parameter.py, and the samplings of
-- sampling/Base.py and sampling/MonteCarlo.py. numpy, scipy and SALib are parameters.
pub mod Parameters
pub mod MonteCarlo
pub mod Files
mod Tests
use crownet.Prelude.{ℕ, Bool, List, Text, ◌≡◌, ◌*◌, ◌+◌}

-- The numbers of the samples, with what scipy and numpy do on them: the arithmetic of floats, the
-- mean and the deviation of the exponential distribution from its location and its scale, the
-- quantile functions, and the test `np.log2(n).is_integer()`.
pub record Stats : Type 1 where
  pub F : Type 0
  pub add : F → F → F
  pub sub : F → F → F
  pub mul : F → F → F
  pub div : F → F → F
  pub eq : F → F → Bool
  pub one : F
  pub half : F
  pub sqrt12 : F
  pub expon_mean : F → F → F
  pub expon_std : F → F → F
  pub uniform_ppf : F → F → F → F
  pub norm_ppf : F → F → F → F
  pub expon_ppf : F → F → F → F
  pub log2_is_integer : ℕ → Bool

-- The generators of scipy's `qmc` for a number of dimensions and of points, and `sobol.sample` of
-- SALib for a number of variables and a size.
pub record Generators (F : Type 0) : Type 0 where
  pub qmc_sobol : ℕ → ℕ → List (List F)
  pub latin_hypercube : ℕ → ℕ → List (List F)
  pub halton : ℕ → ℕ → List (List F)
  pub sobol_sample : ℕ → ℕ → List (List F)
