-- ===== src/Evaluation/Missing.antt =====
-- SensitivityAnalysis.py: what becomes of missing values.
use crownet.Floats.{Floats}
use crownet.Prelude.{
  ℕ, zero, suc, ◌≡◌, refl, ltb, Bool, true, false, ◌&&◌, List, [], ◌∷◌, if◌then◌else◌, length, map,
  filter, Bool-cases, inl, inr, ap, ok, err, value_error, arith,
}
use crownet.Evaluation.{Tools, nans, fill, handle_missing_qoi_vals}

module _ (R : Floats) (T : Tools R) where
  open R use {F, lt, div}
  open T use {of_count, is_nan, finite, nanmean}

  -- No value is missing.
  abbrev pub IsPresent : List F → Type 0
  IsPresent [] = Unit
  IsPresent (v ∷ vs) = (is_nan v ≡ false) × IsPresent vs

  -- The second list is the first with `mean` for each missing value: finite values stay.
  abbrev pub IsFilled : F → List F → List F → Type 0
  IsFilled mean [] [] = Unit
  IsFilled mean [] (w ∷ ws) = ⊥
  IsFilled mean (v ∷ vs) [] = ⊥
  IsFilled mean (v ∷ vs) (w ∷ ws) =
      (is_nan v ≡ true → w ≡ mean) × (is_nan v ≡ false → finite v ≡ v → w ≡ v) × IsFilled mean vs ws

  map-fill-IsPresent :
      (mean : F)
      → is_nan mean ≡ false
      → ((v : F) → is_nan v ≡ false → is_nan (finite v) ≡ false)
      → (vs : List F) → IsPresent (map (fill R T mean) vs)
  map-fill-IsPresent mean h there [] = tt
  map-fill-IsPresent mean h there (v ∷ vs) =
      (filled (is_nan v) refl, map-fill-IsPresent mean h there vs)
    where
      filled : (b : Bool) → is_nan v ≡ b → is_nan (fill R T mean v) ≡ false
      filled true e = rw (e, fill) h
      filled false e = rw (e, fill) (there v e)

  map-fill-IsFilled : (mean : F) (vs : List F) → IsFilled mean vs (map (fill R T mean) vs)
  map-fill-IsFilled mean [] = tt
  map-fill-IsFilled mean (v ∷ vs) =
      (λ e. rw (e, fill) refl, λ e same. rw (e, fill) same, map-fill-IsFilled mean vs)

  -- How many values are missing.
  abbrev pub missing : List F → ℕ
  missing vs = length (filter is_nan vs)

  nans_lem : (vs : List F) → missing vs ≡ nans R T vs
  nans_lem [] = refl
  nans_lem (v ∷ vs) = elim (Bool-cases (is_nan v)) [
    | inl e ↦ rw e (ap suc (nans_lem vs))
    | inr e ↦ rw e (nans_lem vs)
  ]

  -- Without a missing value the list is present, and it is filled already.
  none_missing : (mean : F) (vs : List F) → nans R T vs ≡ 0 → IsPresent vs × IsFilled mean vs vs
  none_missing mean [] h = (tt, tt)
  none_missing mean (v ∷ vs) h = go (is_nan v) refl (none_missing mean vs)
    where
      go :
          (b : Bool)
          → is_nan v ≡ b
          → (nans R T vs ≡ 0 → IsPresent vs × IsFilled mean vs vs)
          → IsPresent (v ∷ vs) × IsFilled mean (v ∷ vs) (v ∷ vs)
      go true e ih = absurd (ground (arith, e, h))
      go false e ih =
          let rest = ih (ground (arith, e, h)) in
          ((e, rest.0), (λ missing. absurd (cc), λ _ _. refl, rest.1))

  ltb_zero : (n : ℕ) → ltb 0 n ≡ false → n ≡ 0
  ltb_zero zero e = refl
  ltb_zero (suc n) e = absurd (ground (arith, e))

  -- Where the quotient of two counts is above zero exactly if the first count is, the mean is a value and
  -- a value does not become a missing one: of at least one value, ValueError is raised if some are missing
  -- and their share is above the threshold. Otherwise the result is a list in which no value is missing,
  -- the input with the mean in the place of each missing value and every finite value as it was.
  pub handle_missing_qoi_vals_lem :
      (share_pos : (c l : ℕ) → lt R.zero (div (of_count c) (of_count (suc l))) ≡ ltb 0 c)
      → (there : (v : F) → is_nan v ≡ false → is_nan (finite v) ≡ false)
      → (threshold v : F) (vs : List F) → is_nan (nanmean (v ∷ vs)) ≡ false
      → (r : List F) × (handle_missing_qoi_vals R T threshold (v ∷ vs) ≡ (
          if ltb 0 (missing (v ∷ vs))
            && lt threshold (div (of_count (missing (v ∷ vs))) (of_count (length (v ∷ vs))))
          then err value_error
          else ok r))
        × IsPresent r
        × IsFilled (nanmean (v ∷ vs)) (v ∷ vs) r
  unfolding handle_missing_qoi_vals
  handle_missing_qoi_vals_lem share_pos there threshold v vs mean_there =
      rw (nans_lem (v ∷ vs), share_pos (nans R T (v ∷ vs)) (length vs))
        (go (ltb 0 (nans R T (v ∷ vs)))
          (lt threshold (div (of_count (nans R T (v ∷ vs))) (of_count (length (v ∷ vs))))) refl)
    where
      go :
          (some_missing too_many : Bool)
          → ltb 0 (nans R T (v ∷ vs)) ≡ some_missing
          → (r : List F) × ((if some_missing
                then (if too_many
                    then err value_error
                    else ok (map (fill R T (nanmean (v ∷ vs))) (v ∷ vs)))
                else ok (v ∷ vs))
              ≡ (if some_missing && too_many then err value_error else ok r))
            × IsPresent r
            × IsFilled (nanmean (v ∷ vs)) (v ∷ vs) r
      go true too_many e = (
        map (fill R T (nanmean (v ∷ vs))) (v ∷ vs),
        refl,
        map-fill-IsPresent (nanmean (v ∷ vs)) mean_there there (v ∷ vs),
        map-fill-IsFilled (nanmean (v ∷ vs)) (v ∷ vs),
      )
      go false too_many e =
          let kept = none_missing (nanmean (v ∷ vs)) (v ∷ vs) (ltb_zero (nans R T (v ∷ vs)) e) in
          (v ∷ vs, refl, kept.0, kept.1)
