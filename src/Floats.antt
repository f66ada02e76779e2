-- ===== src/Floats.antt =====
-- Python's floats and the numpy calls on them, as an unknown type with its operations. A theorem
-- that needs a law of them states it as a hypothesis.
use crownet.Prelude.{Bool, Text, Option}

pub record Floats : Type 1 where
  pub F : Type 0
  pub zero : F
  pub lt : F → F → Bool
  pub eq : F → F → Bool
  pub sub : F → F → F
  pub div : F → F → F
  pub abs : F → F
  -- `np.linalg.norm` of a vector of two.
  pub norm : F → F → F
  -- `float(text)`; `none` is its `ValueError`.
  pub parse : Text → Option F
