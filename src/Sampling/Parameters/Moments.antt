-- ===== src/Sampling/Parameters/Moments.antt =====
-- The mean and the deviation of the exponential parameters, which compare theirs with scipy's.
use crownet.Prelude.{◌≡◌, refl, true, if◌then◌else◌, ok, err, value_error}
use crownet.Sampling.{Stats}
use crownet.Sampling.Parameters.{exponential, exponential2, get_std, get_mean}

module _ (S : Stats) (eq_self : (a : S.F) → S.eq a a ≡ true)
    (expon_mean_lem : (loc scale : S.F) → S.expon_mean loc scale ≡ S.add loc scale)
    (expon_std_lem : (loc scale : S.F) → S.expon_std loc scale ≡ scale) where
  -- Where a float equals itself and scipy's exponential distribution has the mean `loc + scale` and
  -- the deviation `scale`, `ExponentialParameter` has the deviation `1 / lamda` and the mean
  -- `x_shift + 1 / lamda`, and raises nothing. `ExponentialParameter2` has the deviation that it was
  -- given; its mean is the one that it was given if `mean - std + std` rounds back to it, and a
  -- `ValueError` otherwise.
  pub get_mean-get_std :
      (lamda x_shift mean std : S.F)
      → (get_std S (exponential lamda x_shift) ≡ ok (S.div S.one lamda))
        × (get_mean S (exponential lamda x_shift) ≡ ok (S.add x_shift (S.div S.one lamda)))
        × (get_std S (exponential2 mean std) ≡ ok std)
        × (get_mean S (exponential2 mean std)
            ≡ (if S.eq mean (S.add (S.sub mean std) std) then ok mean else err value_error))
  unfolding get_std get_mean
  get_mean-get_std lamda x_shift mean std = (
    rw (expon_std_lem x_shift (S.div S.one lamda), eq_self (S.div S.one lamda)) refl,
    rw
        (
          expon_std_lem x_shift (S.div S.one lamda),
          eq_self (S.div S.one lamda),
          expon_mean_lem x_shift (S.div S.one lamda),
          eq_self (S.add x_shift (S.div S.one lamda)),
        )
        refl,
    rw (expon_std_lem (S.sub mean std) std, eq_self std) refl,
    rw (expon_mean_lem (S.sub mean std) std) refl,
  )
