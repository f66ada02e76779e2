-- ===== src/Evaluation/Tests.antt =====
-- The evaluation of studies on concrete values, the witnesses of its theorems among them.
use crownet.Floats.{Floats}
use crownet.Prelude.{
  ℕ, ◌==◌, ◌+◌, ◌-◌, ◌≡◌, refl, ◌&&◌, ltb, List, [], ◌∷◌, if◌then◌else◌, ok, err, value_error,
  length, some, none, not_implemented_error,
}
use crownet.Evaluation.{Indices, Tools, handle_missing_qoi_vals}
use crownet.Evaluation.Missing.{missing, IsPresent, IsFilled, handle_missing_qoi_vals_lem}
use crownet.Evaluation.Surrogate.{Model, construct, construct_kriging, evaluate}

abbrev counts : Floats
counts = record {
  F = ℕ;
  zero = 0;
  lt = ltb;
  eq = ◌==◌;
  sub = λ a b. a - b;
  div = λ a b. a;
  abs = λ a. a;
  norm = λ a b. a + b;
  parse = λ s. some (length s);
}

abbrev none_found : Indices ℕ
none_found = record { s1 = []; s1_conf = []; st = []; st_conf = []; s2 = []; s2_conf = [] }

-- Here 9 is `nan`, and 5 the mean of whatever is there.
abbrev tools : Tools counts
tools = record {
  add = λ a b. a + b;
  of_count = λ n. n;
  is_nan = λ v. v == 9;
  finite = λ v. v;
  nanmean = λ vs. 5;
  analyze = λ n vs. none_found;
  Stats = ℕ;
  describe = λ vs. length vs;
  Kriging = ℕ;
  universal_kriging = λ x y. 2;
  universal_kriging_3d = λ x y. 3;
  execute = λ k x. k ∷ [];
}

handle_missing_qoi_vals_mean :
    handle_missing_qoi_vals counts tools 2 (1 ∷ 9 ∷ 3 ∷ []) ≡ ok (1 ∷ 5 ∷ 3 ∷ [])
unfolding handle_missing_qoi_vals
handle_missing_qoi_vals_mean = refl

handle_missing_qoi_vals_too_many :
    handle_missing_qoi_vals counts tools 1 (9 ∷ 9 ∷ 3 ∷ []) ≡ err value_error
unfolding handle_missing_qoi_vals
handle_missing_qoi_vals_too_many = refl

handle_missing_qoi_vals_lem_example :
    (r : List ℕ) × (handle_missing_qoi_vals counts tools 2 (1 ∷ 9 ∷ 3 ∷ []) ≡ (
      if ltb 0 (missing counts tools (1 ∷ 9 ∷ 3 ∷ []))
        && ltb 2 (missing counts tools (1 ∷ 9 ∷ 3 ∷ []))
      then err value_error
      else ok r))
    × IsPresent counts tools r
    × IsFilled counts tools 5 (1 ∷ 9 ∷ 3 ∷ []) r
handle_missing_qoi_vals_lem_example =
    handle_missing_qoi_vals_lem counts tools (λ c l. refl) (λ v h. h) 2 1 (9 ∷ 3 ∷ []) refl

abbrev untrained : Model counts tools
untrained = record {
  model = none;
  y_learn = none;
  y_pred = none;
  train_set_indices = some (1 ∷ []);
}

evaluate-untrained : evaluate counts tools untrained [] ≡ err value_error
unfolding evaluate
evaluate-untrained = refl

construct_one_column :
    construct counts tools untrained ((1 ∷ []) ∷ (2 ∷ []) ∷ []) (1 ∷ 2 ∷ [])
    ≡ err not_implemented_error
unfolding construct construct_kriging
construct_one_column = refl
