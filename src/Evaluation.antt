-- ===== src/Evaluation.antt =====
-- analysis/uq/uq/PostProcessing: the sensitivity analyses, the forward propagation and the surrogate
-- models, from quantities of interest that are grouped by their times. SALib, pykrige, pandas and
-- numpy are parameters; plots and what is printed are left out.
pub mod Missing
pub mod Surrogate
pub mod Tests
use crownet.Floats.{Floats}
use crownet.Prelude.{
  ℕ, zero, suc, ◌+◌, ◌==◌, ltb, Bool, true, false, ◌&&◌, ◌||◌, not, Option, none, some, List, [],
  ◌∷◌, ◌++◌, if◌then◌else◌, Text, text, list_eq, list_beq, nat_eq, contains, length, get_elem?, map,
  Result, ok, err, value_error, index_error, type_error, zero_division_error, not_implemented_error,
  ◌>>=◌, ◌>>◌, or_raise,
}
use crownet.Sampling.Parameters.{Parameter, interaction_name, get_parameter_names}

-- The dict of `SALib.analyze.sobol.analyze`.
pub record Indices (F : Type 0) : Type 0 where
  pub s1 : List F
  pub s1_conf : List F
  pub st : List F
  pub st_conf : List F
  pub s2 : List (List F)
  pub s2_conf : List (List F)

-- The calls of numpy, pandas, SALib and pykrige, on floats.
pub record Tools (R : Floats) : Type 1 where
  pub add : R.F → R.F → R.F
  pub of_count : ℕ → R.F
  pub is_nan : R.F → Bool
  -- What `np.nan_to_num` makes of a value: a large number of an infinite one.
  pub finite : R.F → R.F
  pub nanmean : List R.F → R.F
  -- `sobol.analyze` of a number of parameters, each within 0 and 1, as `get_parameters_dict` says.
  pub analyze : ℕ → List R.F → Indices R.F
  -- `pd.DataFrame(...).describe()`
  pub Stats : Type 0
  pub describe : List R.F → Stats
  -- A kriging model of two or three parameters, and its mean at some points.
  pub Kriging : Type 0
  pub universal_kriging : List (List R.F) → List R.F → Kriging
  pub universal_kriging_3d : List (List R.F) → List R.F → Kriging
  pub execute : Kriging → List (List R.F) → List R.F

-- A row of the result, under its time, its kind of index and its parameters.
pub record IndexRow (F : Type 0) : Type 0 where
  pub time : Text
  pub index_type : Text
  pub parameter : Text
  pub value : F
  pub low : F
  pub high : F

module _ (R : Floats) (T : Tools R) where
  open R use {F, lt, sub, div}
  open T use {add, of_count, is_nan, finite, nanmean}

  -- `np.count_nonzero(np.isnan(qoi))`
  abbrev pub nans : List F → ℕ
  nans [] = 0
  nans (v ∷ vs) = if is_nan v then suc (nans vs) else nans vs

  -- `np.nan_to_num`
  abbrev pub fill : F → F → F
  fill mean v = if is_nan v then mean else finite v

  abbrev pub share : List F → F
  share qoi = div (of_count (nans qoi)) (of_count (length qoi))

  unfoldable pub handle_missing_qoi_vals : F → List F → Result (List F)
  handle_missing_qoi_vals threshold [] = err zero_division_error
  handle_missing_qoi_vals threshold (v ∷ vs) =
      if lt R.zero (share (v ∷ vs))
      then (if lt threshold (share (v ∷ vs))
          then err value_error
          else ok (map (fill (nanmean (v ∷ vs))) (v ∷ vs)))
      else ok (v ∷ vs)

  -- The columns of `_extract_indices_from_dict`; columns of other lengths are refused.
  abbrev pub index_rows : Text → Text → List Text → List F → List F → Result (List (IndexRow F))
  index_rows time name [] [] [] = ok []
  index_rows time name (p ∷ ps) (v ∷ vs) (c ∷ cs) = do
    rest ← index_rows time name ps vs cs
    ok (
        record {
          time = time;
          index_type = name;
          parameter = p;
          value = v;
          low = sub v c;
          high = add v c;
        }
        ∷ rest)
  index_rows time name [] (v ∷ vs) cs = err value_error
  index_rows time name [] [] (c ∷ cs) = err value_error
  index_rows time name (p ∷ ps) [] cs = err value_error
  index_rows time name (p ∷ ps) (v ∷ vs) [] = err value_error

  unfoldable pub extract_indices_from_dict :
      Text → Text → List Text → Indices F → Result (List (IndexRow F))
  extract_indices_from_dict time name parameters found =
      if list_beq name (text "FirstOrderSensitivityIndex")
      then index_rows time name parameters found.s1 found.s1_conf
      else if list_beq name (text "TotalOrderSensitivityIndex")
      then index_rows time name parameters found.st found.st_conf
      else err value_error

  module _ {P : Type 0} (parameters : List (Parameter P)) where
    -- One entry of the matrix of second order; `nan` stands where there is none.
    abbrev second_entry : Text → ℕ → ℕ → F → List F → Result (List (IndexRow F))
    second_entry time i1 i2 v confs =
        if is_nan v
        then ok []
        else (or_raise (get_elem? confs i2) index_error >>= λ c.
            interaction_name parameters i1 i2 >>= λ name. ok (
              record {
                time = time;
                index_type = text "SecondOrderSensitivityIndex";
                parameter = name;
                value = v;
                low = sub v c;
                high = add v c;
              }
              ∷ []))

    abbrev second_row : Text → ℕ → ℕ → List F → List F → Result (List (IndexRow F))
    second_row time i1 i2 [] confs = ok []
    second_row time i1 i2 (v ∷ vs) confs = do
      here ← second_entry time i1 i2 v confs
      rest ← second_row time i1 (i2 + 1) vs confs
      ok (here ++ rest)

    abbrev conf_row : List (List F) → ℕ → List F
    conf_row confs i = elim (get_elem? confs i) [ none ↦ [] | some r ↦ r ]

    abbrev second_rows : Text → ℕ → List (List F) → List (List F) → Result (List (IndexRow F))
    second_rows time i1 [] confs = ok []
    second_rows time i1 (vs ∷ rows) confs = do
      here ← second_row time i1 0 vs (conf_row confs i1)
      rest ← second_rows time (i1 + 1) rows confs
      ok (here ++ rest)

    unfoldable pub get_second_order_indices_from_dict :
        Text → Indices F → Result (List (IndexRow F))
    get_second_order_indices_from_dict time found = second_rows time 0 found.s2 found.s2_conf

    unfoldable pub get_sensitivity_indices_for_time : F → Text → List F → Result (List (IndexRow F))
    unfolding handle_missing_qoi_vals extract_indices_from_dict get_second_order_indices_from_dict
    get_sensitivity_indices_for_time threshold time qoi = do
      vals ← handle_missing_qoi_vals threshold qoi
      first ←
          extract_indices_from_dict time (text "FirstOrderSensitivityIndex")
            (get_parameter_names parameters) (T.analyze (length parameters) vals)
      total ←
          extract_indices_from_dict time (text "TotalOrderSensitivityIndex")
            (get_parameter_names parameters) (T.analyze (length parameters) vals)
      second ← get_second_order_indices_from_dict time (T.analyze (length parameters) vals)
      ok (first ++ (total ++ second))

    -- The loop over the times, of the values that `groupby` gives in their order.
    unfoldable pub get_sensitivity_indices : F → List (Text × List F) → Result (List (IndexRow F))
    get_sensitivity_indices threshold [] = ok []
    get_sensitivity_indices threshold ((time, qoi) ∷ groups) = do
      here ← get_sensitivity_indices_for_time threshold time qoi
      rest ← get_sensitivity_indices threshold groups
      ok (here ++ rest)
