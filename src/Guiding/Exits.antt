-- ===== src/Guiding/Exits.antt =====
-- run_simulations.py: the script ends normally only if nothing has failed.
use crownet.Prelude.{
  ◌≡◌, ◌↔◌, ◌∙◌, refl, sym, ap, Bool, true, false, List, [], ◌∷◌, ◌++◌, if◌then◌else◌, Text, Result,
  ok, err, key_error,
}
use crownet.States.{M, after, ◌>>=◌, ◌>>◌, return, raising, lifted, after-returned}
use crownet.SumoRuns.{join_path}
use crownet.Guiding.{
  Host, World, Exit, succeeded, Arguments, parameters_path, table_at, all_zero, check_failed, exit,
  controllers, arguments, run_simulation_study, judge, script,
}

module _ (H : Host) where
  open H use {Table}

  -- No simulation of the controllers has a return code other than zero.
  abbrev pub AllZero : Text → List (Text × Table) → List Text → Type 0
  AllZero dir files [] = Unit
  AllZero dir files (c ∷ cs) =
      ((info : Table) × (table_at H (parameters_path H dir c) files ≡ ok info)
        × (all_zero (H.return_codes info) ≡ true))
      × AllZero dir files cs

  check_failed-AllZero :
      (dir : Text) (cs failures : List Text) (w : World Table) (r : List Text)
      → (check_failed H dir cs failures w).0 ≡ ok r
      → (check_failed H dir cs failures w ≡ (ok failures, w)) × AllZero dir w.files cs
  unfolding check_failed
  check_failed-AllZero dir [] failures w r h = (refl, tt)
  check_failed-AllZero dir (c ∷ cs) failures w r h =
      go (table_at H (parameters_path H dir c) w.files) refl
        (check_failed-AllZero dir cs failures w r) h
    where
      next : Table → M (World Table) (List Text)
      next info =
          if all_zero (H.return_codes info)
          then check_failed H dir cs failures
          else (return (failures ++ (join_path dir c ∷ [])) >>= λ more. raising key_error)

      go :
          (o : Result Table)
          → table_at H (parameters_path H dir c) w.files ≡ o
          → ((check_failed H dir cs failures w).0 ≡ ok r
              → (check_failed H dir cs failures w ≡ (ok failures, w)) × AllZero dir w.files cs)
          → (after (o, w) next).0 ≡ ok r
          → (after (o, w) next ≡ (ok failures, w)) × AllZero dir w.files (c ∷ cs)
      go (err raised) read ih h = absurd (cc)
      go (ok info) read ih h = judged (all_zero (H.return_codes info)) refl h
        where
          judged :
              (b : Bool)
              → all_zero (H.return_codes info) ≡ b
              → ((if b
                    then check_failed H dir cs failures
                    else (return (failures ++ (join_path dir c ∷ [])) >>= λ more.
                        raising key_error))
                  w).0
                ≡ ok r
              → ((if b
                      then check_failed H dir cs failures
                      else (return (failures ++ (join_path dir c ∷ [])) >>= λ more.
                          raising key_error))
                    w
                  ≡ (ok failures, w))
                × AllZero dir w.files (c ∷ cs)
          judged true zero h = let (same, all) = ih h in (same, ((info, read, zero), all))
          judged false some h = absurd (cc)

  AllZero-check_failed :
      (dir : Text) (cs failures : List Text) (w : World Table)
      → AllZero dir w.files cs
      → check_failed H dir cs failures w ≡ (ok failures, w)
  unfolding check_failed
  AllZero-check_failed dir [] failures w all = refl
  AllZero-check_failed dir (c ∷ cs) failures w ((info, read, zero), all) =
      rw (read, zero) (AllZero-check_failed dir cs failures w all)

  after_check : Text → List Text → M (World Table) Exit
  after_check dir failures = lifted (H.post_processing dir) >> return (exit failures)

  judge-AllZero :
      (args : Arguments) (w : World Table) (e : Exit)
      → (judge H args w).0 ≡ ok e
      → (e ≡ succeeded)
        × AllZero args.simulation_dir w.files controllers
        × (H.post_processing args.simulation_dir ≡ ok tt)
  unfolding after_check
  judge-AllZero args w e h =
      let (failures, checked, rest, same) =
        after-returned (check_failed H args.simulation_dir controllers [] w)
          (after_check args.simulation_dir) e h in
      let (unchanged, all) =
        check_failed-AllZero args.simulation_dir controllers [] w failures checked in
      let now : judge H args w ≡ after_check args.simulation_dir [] w =
        ap (λ r. after r (after_check args.simulation_dir)) unchanged in
      let (ended, done) =
        finish (H.post_processing args.simulation_dir) (sym (ap (λ r. r.0) now) ∙ h) in
      (ended, all, done)
    where
      finish :
          (post : Result (Unit {0}))
          → (after (post, w) (λ _. return succeeded)).0 ≡ ok e
          → (e ≡ succeeded) × (post ≡ ok tt)
      finish (err raised) h = absurd (cc)
      finish (ok done) h = (ended e h, refl)
        where
          ended : (e : Exit) → ok succeeded ≡ ok e → e ≡ succeeded
          ended e h = cc

  -- Nothing goes wrong: the arguments can be read, the runs of the controllers return, no simulation of
  -- them has a return code other than zero, and the post-processing returns.
  abbrev pub IsClean : List Text → World Table → Type 0
  IsClean argv w =
      (args : Arguments) × (arguments H argv ≡ ok args)
      × ((run_simulation_study H args w).0 ≡ ok tt)
      × AllZero args.simulation_dir (run_simulation_study H args w).1.files controllers
      × (H.post_processing args.simulation_dir ≡ ok tt)

  clean_end :
      (args : Arguments) (w w' : World Table)
      → run_simulation_study H args w ≡ (ok tt, w')
      → AllZero args.simulation_dir w'.files controllers
      → H.post_processing args.simulation_dir ≡ ok tt
      → ((run_simulation_study H args >> judge H args) w).0 ≡ ok succeeded
  clean_end args w w' ran all done =
      rw (ran, AllZero-check_failed args.simulation_dir controllers [] w' all, done) refl

  -- The script ends with an exit code exactly if nothing goes wrong: the arguments can be read, the runs
  -- of the controllers return, no simulation has a return code other than zero and the post-processing
  -- returns. The code is then 0. In all other cases it raises; it never ends with -1.
  pub script-AllZero :
      (argv : List Text) (w : World Table) (e : Exit)
      → ((script H argv w).0 ≡ ok e) ↔ ((e ≡ succeeded) × IsClean argv w)
  unfolding script
  script-AllZero argv w e = (
    λ h.
        let (args, read, from_args, same) =
          after-returned (arguments H argv, w) (λ args. run_simulation_study H args >> judge H args)
            e h in
        let (done, ran, from_runs, again) =
          after-returned (run_simulation_study H args w) (λ _. judge H args) e from_args in
        let (ended, all, post) = judge-AllZero args (run_simulation_study H args w).1 e from_runs in
        (ended, (args, read, ran, all, post)),
    λ (ended, (args, read, ran, all, post)).
        rw (read, ended)
          (clean_end args w (run_simulation_study H args w).1
            (pair_of (run_simulation_study H args w) ran) all post),
  )
    where
      pair_of : (r : Result (Unit {0}) × World Table) → r.0 ≡ ok tt → r ≡ (ok tt, r.1)
      pair_of (a, b) e = ap (λ c. (c, b)) e
