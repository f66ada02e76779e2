-- ===== src/Sampling/Parameters.antt =====
-- Parameter.py: the parameters of a sampling, and from sampling/Base.py what a sampling does to them.
pub mod Assigned
pub mod Moments
use crownet.Prelude.{
  ℕ, suc, ◌+◌, Bool, true, false, Option, none, some, List, [], ◌∷◌, ◌++◌, map, if◌then◌else◌, Text,
  text, list_eq, nat_eq, list_beq, decimal, get_elem?, Result, ok, err, value_error, index_error,
  or_raise, ◌>>=◌, put,
}
use crownet.Sampling.{Stats}

-- The distributions, with the attributes of their classes.
pub data Distribution (F : Type 0) : Type 0 where
  uniform : F → F → Distribution F
  gaussian : F → F → Distribution F
  exponential2 : F → F → Distribution F
  exponential : F → F → Distribution F

pub record Parameter (F : Type 0) : Type 0 where
  pub distribution : Distribution F
  pub index : ℕ
  pub name : Text

module _ (S : Stats) where
  -- `get_shift` and `get_scale` of the exponential distributions.
  abbrev pub exp2_shift : S.F → S.F → S.F
  exp2_shift mean std = S.sub mean std

  abbrev pub exp_scale : S.F → S.F
  exp_scale lamda = S.div S.one lamda

  pub get_std : Distribution S.F → Result S.F
  get_std (uniform lower upper) = ok (S.div (S.sub upper lower) S.sqrt12)
  get_std (gaussian mean std) = ok std
  get_std (exponential2 mean std) =
      if S.eq std (S.expon_std (exp2_shift mean std) std) then ok std else err value_error
  get_std (exponential lamda x_shift) =
      if S.eq (S.div S.one lamda) (S.expon_std x_shift (exp_scale lamda))
      then ok (S.div S.one lamda)
      else err value_error

  pub get_mean : Distribution S.F → Result S.F
  unfolding get_std
  get_mean (uniform lower upper) = ok (S.mul S.half (S.add lower upper))
  get_mean (gaussian mean std) = ok mean
  get_mean (exponential2 mean std) =
      if S.eq mean (S.expon_mean (exp2_shift mean std) std) then ok mean else err value_error
  get_mean (exponential lamda x_shift) = get_std (exponential lamda x_shift) >>= λ std.
      if S.eq (S.add x_shift std) (S.expon_mean x_shift (exp_scale lamda))
      then ok (S.add x_shift std)
      else err value_error

  unfoldable pub transform : Distribution S.F → S.F → S.F
  transform (uniform lower upper) x = S.uniform_ppf x lower (S.sub upper lower)
  transform (gaussian mean std) x = S.norm_ppf x mean std
  transform (exponential2 mean std) x = S.expon_ppf x (exp2_shift mean std) std
  transform (exponential lamda x_shift) x = S.expon_ppf x x_shift (exp_scale lamda)

module _ {F : Type 0} where
  -- `assign_parameter_index`: the loop from an index on.
  unfoldable pub assign_index_from : ℕ → List (Parameter F) → List (Parameter F)
  assign_index_from i [] = []
  assign_index_from i (p ∷ ps) = record p { index = i } ∷ assign_index_from (suc i) ps

  unfoldable pub assign_parameter_index : List (Parameter F) → List (Parameter F)
  unfolding assign_index_from
  assign_parameter_index ps = assign_index_from 0 ps

  unfoldable pub assign_name : Parameter F → Parameter F
  assign_name p = record p {
    name = if list_beq p.name [] then text "Parameter" ++ decimal p.index else p.name;
  }

  unfoldable pub assign_parameter_name_if_missing : List (Parameter F) → List (Parameter F)
  unfolding assign_name
  assign_parameter_name_if_missing ps = map assign_name ps

  unfoldable pub get_parameter_names : List (Parameter F) → List Text
  get_parameter_names ps = map (λ p. p.name) ps

  -- `get_interaction_name_from_parameter_index`
  pub interaction_name : List (Parameter F) → ℕ → ℕ → Result Text
  unfolding get_parameter_names
  interaction_name ps first_index second_index = do
    first ← or_raise (get_elem? (get_parameter_names ps) first_index) index_error
    second ← or_raise (get_elem? (get_parameter_names ps) second_index) index_error
    ok (first ++ (b'_' ∷ second))

  -- `params` of `to_dict`: the attributes under the names, here the parameters themselves.
  unfoldable pub params_of :
      List (Parameter F) → List (Text × Parameter F) → List (Text × Parameter F)
  params_of [] params = params
  params_of (p ∷ ps) params = params_of ps (put p.name p params)
