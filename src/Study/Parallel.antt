-- ===== src/Study/Parallel.antt =====
-- study.py: the analysis gives the same with a pool of processes and without.
use crownet.Prelude.{
  ℕ, ◌≡◌, ◌∙◌, refl, sym, ltb, Bool, true, false, some, List, [], ◌∷◌, map, if◌then◌else◌, Text,
  list_eq, nat_eq, lookup, Unique-Entries, Entries, Result, ok, err, Exception, some_inj, ◌>>=◌,
  >>=-regroup,
}
use crownet.Study.{
  Tools, Names, starmap, in_order, joined, extended, with_pool, one_by_one, without_pool,
  analyze_singe_simulation, analyze_parameter_study, statistics,
}
use crownet.Study.Agree.{Agree, RaisesIn, Agree-refl, Agree-bind, Agree-weaken, starmap-Agree}
use crownet.Study.Groups.{found, with_value, get_parameter_to_sims-filter}

-- `pd.concat` of frames one of which is such a result is the concatenation of all of them.
pub record IsFlat (T : Tools) : Type 0 where
  pub nested_last :
      (a x : T.Frame) (xs : List T.Frame)
      → T.concat (a ∷ T.concat (x ∷ xs) ∷ []) ≡ T.concat (a ∷ x ∷ xs)
  pub nested_first :
      (a x y : T.Frame) (ys : List T.Frame)
      → T.concat (T.concat (a ∷ x ∷ []) ∷ y ∷ ys) ≡ T.concat (a ∷ x ∷ y ∷ ys)

module _ (T : Tools) (flat : IsFlat T) where
  open T use {Frame, Sim}

  abbrev joined_after : Frame → List Frame → Frame
  joined_after a [] = a
  joined_after a (x ∷ xs) = joined_after (T.concat (a ∷ x ∷ [])) xs

  joined_after_lem :
      (a x : Frame) (xs : List Frame) → joined_after a (x ∷ xs) ≡ T.concat (a ∷ x ∷ xs)
  joined_after_lem a x [] = refl
  joined_after_lem a x (y ∷ ys) =
      joined_after_lem (T.concat (a ∷ x ∷ [])) y ys ∙ flat.nested_first a x y ys

  abbrev folded : Frame × Frame → List (Frame × Frame) → Frame × Frame
  folded dfs [] = dfs
  folded dfs (r ∷ rs) = folded (extended T dfs r) rs

  folded_lem :
      (dfs : Frame × Frame) (rs : List (Frame × Frame))
      → folded dfs rs
        ≡ (joined_after dfs.0 (map (λ q. q.0) rs), joined_after dfs.1 (map (λ q. q.1) rs))
  folded_lem dfs [] = refl
  folded_lem dfs (r ∷ rs) = folded_lem (extended T dfs r) rs

  extended-joined :
      (dfs r : Frame × Frame) (rs : List (Frame × Frame))
      → (joined T (r ∷ rs) >>= λ new. ok (extended T dfs new)) ≡ ok (folded dfs (r ∷ rs))
  extended-joined dfs r rs =
      rw
        (
          folded_lem dfs (r ∷ rs),
          joined_after_lem dfs.0 r.0 (map (λ q. q.0) rs),
          joined_after_lem dfs.1 r.1 (map (λ q. q.1) rs),
          flat.nested_last dfs.0 r.0 (map (λ q. q.0) rs),
          flat.nested_last dfs.1 r.1 (map (λ q. q.1) rs),
        )
        refl

  -- The simulations of a group are those of its value, of which there is one at least.
  abbrev AllOf : (Text → List Sim) → List (Text × List Sim) → Type 0
  AllOf of_value [] = Unit
  AllOf of_value ((value, []) ∷ groups) = ⊥
  AllOf of_value ((value, sim ∷ sims) ∷ groups) =
      (of_value value ≡ sim ∷ sims) × AllOf of_value groups

  module _ (analyze : Text → Sim → Result (Frame × Frame)) where
    one_by_one_lem :
        (value : Text) (sims : List Sim) (dfs : Frame × Frame)
        → one_by_one T analyze value sims dfs
          ≡ (in_order (analyze value) sims >>= λ rs. ok (folded dfs rs))
    one_by_one_lem value [] dfs = refl
    one_by_one_lem value (sim ∷ sims) dfs =
        go (analyze value sim) (λ new. one_by_one_lem value sims (extended T dfs new))
      where
        go :
            (r : Result (Frame × Frame))
            → ((new : Frame × Frame)
                → one_by_one T analyze value sims (extended T dfs new)
                  ≡ (in_order (analyze value) sims >>= λ rs. ok (folded (extended T dfs new) rs)))
            → (r >>= λ new. one_by_one T analyze value sims (extended T dfs new)) ≡ (
                (r >>= λ b. in_order (analyze value) sims >>= λ bs. ok (b ∷ bs)) >>= λ rs.
                ok (folded dfs rs))
        go (err raised) ih = refl
        go (ok new) ih =
            ih new
            ∙ sym (
                >>=-regroup (in_order (analyze value) sims) (λ bs. ok (new ∷ bs))
                  (λ rs. ok (folded dfs rs)) (λ bs. ok (folded (extended T dfs new) bs)) λ bs. refl)

    -- One group: its frames joined at once, and one after the other.
    group_lem :
        (value : Text) (sim : Sim) (sims : List Sim) (dfs : Frame × Frame)
        → (in_order (analyze value) (sim ∷ sims) >>= λ rs.
            joined T rs >>= λ new. ok (extended T dfs new))
          ≡ one_by_one T analyze value (sim ∷ sims) dfs
    group_lem value sim sims dfs =
        go (analyze value sim) (in_order (analyze value) sims)
        ∙ sym (one_by_one_lem value (sim ∷ sims) dfs)
      where
        go :
            (r : Result (Frame × Frame)) (rest : Result (List (Frame × Frame)))
            → ((r >>= λ b. rest >>= λ bs. ok (b ∷ bs)) >>= λ rs.
                joined T rs >>= λ new. ok (extended T dfs new))
              ≡ ((r >>= λ b. rest >>= λ bs. ok (b ∷ bs)) >>= λ rs. ok (folded dfs rs))
        go (err raised) rest = refl
        go (ok b) (err raised) = refl
        go (ok b) (ok bs) = extended-joined dfs b bs

    -- The pool and the loop fail on the same value.
    abbrev pub SameValue : (Text → List Sim) → Exception → Exception → Type 0
    SameValue of_value e e' =
        (value : Text) × RaisesIn (analyze value) (of_value value) e
        × RaisesIn (analyze value) (of_value value) e'

    with_pool-without_pool :
        (arrival : Text → ℕ) (of_value : Text → List Sim) (groups : List (Text × List Sim))
        (dfs : Frame × Frame)
        → AllOf of_value groups
        → Agree
            (SameValue of_value)
            (with_pool T analyze arrival groups dfs)
            (without_pool T analyze groups dfs)
    unfolding with_pool without_pool
    with_pool-without_pool arrival of_value [] dfs all = refl
    with_pool-without_pool arrival of_value ((value, []) ∷ groups) dfs all = elim all [ ]
    with_pool-without_pool arrival of_value ((value, sim ∷ sims) ∷ groups) dfs (of, all) =
        rw (apart (starmap (arrival value) (analyze value) (sim ∷ sims))) (
          Agree-bind (SameValue of_value)
            (starmap (arrival value) (analyze value) (sim ∷ sims) >>= λ rs.
              joined T rs >>= λ new. ok (extended T dfs new))
            (one_by_one T analyze value (sim ∷ sims) dfs) (with_pool T analyze arrival groups)
            (without_pool T analyze groups)
            (rw (← group_lem value sim sims dfs) (
              Agree-bind (SameValue of_value) (starmap (arrival value) (analyze value) (sim ∷ sims))
                (in_order (analyze value) (sim ∷ sims))
                (λ rs. joined T rs >>= λ new. ok (extended T dfs new))
                (λ rs. joined T rs >>= λ new. ok (extended T dfs new)) here
                (λ rs.
                  Agree-refl (SameValue of_value)
                    (joined T rs >>= λ new. ok (extended T dfs new)))))
            (λ more. with_pool-without_pool arrival of_value groups more all))
      where
        here :
            Agree
              (SameValue of_value)
              (starmap (arrival value) (analyze value) (sim ∷ sims))
              (in_order (analyze value) (sim ∷ sims))
        here =
            Agree-weaken
              (λ e e'.
                RaisesIn (analyze value) (sim ∷ sims) e × RaisesIn (analyze value) (sim ∷ sims) e')
              (SameValue of_value) (starmap (arrival value) (analyze value) (sim ∷ sims))
              (in_order (analyze value) (sim ∷ sims))
              (λ e e' (raised, raised'). (value, rw of raised, rw of raised'))
              (starmap-Agree (arrival value) (analyze value) (sim ∷ sims))

        apart :
            (s : Result (List (Frame × Frame)))
            → (s >>= λ rs.
                joined T rs >>= λ new. with_pool T analyze arrival groups (extended T dfs new))
              ≡ ((s >>= λ rs. joined T rs >>= λ new. ok (extended T dfs new))
                  >>= with_pool T analyze arrival groups)
        apart (err raised) = refl
        apart (ok []) = refl
        apart (ok (r ∷ rs)) = refl

  Entries-AllOf :
      (groups all : List (Text × List Sim)) (of_value : Text → List Sim)
      → Entries groups all
      → ((v : Text) → lookup v all ≡ found (of_value v))
      → AllOf of_value groups
  Entries-AllOf [] all of_value h looked = tt
  Entries-AllOf ((value, []) ∷ groups) all of_value (here, rest) looked =
      nothing (of_value value) (sym (looked value) ∙ here)
    where
      nothing : (xs : List Sim) → found xs ≡ some [] → ⊥
      nothing [] h = cc
      nothing (x ∷ xs) h = cc
  Entries-AllOf ((value, sim ∷ sims) ∷ groups) all of_value (here, rest) looked = (
    these (of_value value) (sym (looked value) ∙ here),
    Entries-AllOf groups all of_value rest looked,
  )
    where
      these : (xs : List Sim) → found xs ≡ some (sim ∷ sims) → xs ≡ sim ∷ sims
      these [] h = cc
      these (x ∷ xs) h = some_inj (x ∷ xs) (sim ∷ sims) h

  module _ (var_parameter : Text × Text) (value : Sim → Text)
      (reads : (sim : Sim)
        → (rest : List Text) × (T.read_parameters sim var_parameter.0 var_parameter.1
            ≡ value sim ∷ rest)) where
    -- The simulations of a value, with the analysis of each.
    abbrev pub FailsAlike : List Sim → Names → Names → Exception → Exception → Type 0
    FailsAlike simulations vectors scalars =
        SameValue (analyze_singe_simulation T vectors scalars)
          (λ v. with_value T var_parameter.0 var_parameter.1 value reads v simulations)

    -- If the parameter can be read from every simulation and concatenations are flat, an analysis with
    -- any number of processes returns exactly if one without a pool does, and then the same, whichever
    -- failure arrives first. If they raise, they raise the same exception, or each raises one of a
    -- simulation of the same value.
    pub analyze_parameter_study-processes :
        (processes : ℕ) (simulations : List Sim) (config : Text) (vectors scalars : Names)
        → Agree
            (FailsAlike simulations vectors scalars)
            (analyze_parameter_study T processes simulations config var_parameter vectors scalars)
            (analyze_parameter_study T 1 simulations config var_parameter vectors scalars)
    unfolding analyze_parameter_study
    analyze_parameter_study-processes processes simulations config vectors scalars =
        let (groups, grouped, unique, looked) =
          get_parameter_to_sims-filter T var_parameter.0 var_parameter.1 value reads simulations in
        let all =
          Entries-AllOf groups groups
            (λ v. with_value T var_parameter.0 var_parameter.1 value reads v simulations)
            (Unique-Entries groups unique) looked in
        rw grouped (go groups all (ltb 1 processes))
      where
        go :
            (groups : List (Text × List Sim))
            → AllOf
                (λ v. with_value T var_parameter.0 var_parameter.1 value reads v simulations)
                groups
            → (b : Bool)
            → Agree
                (FailsAlike simulations vectors scalars)
                ((if b
                    then with_pool T
                        (analyze_singe_simulation T vectors scalars)
                        (T.arrival config)
                        groups
                        (T.empty, T.empty)
                    else without_pool T
                        (analyze_singe_simulation T vectors scalars)
                        groups
                        (T.empty, T.empty))
                  >>= statistics T config)
                (without_pool T
                    (analyze_singe_simulation T vectors scalars)
                    groups
                    (T.empty, T.empty)
                  >>= statistics T config)
        go groups all false = Agree-refl (FailsAlike simulations vectors scalars) (
            without_pool T (analyze_singe_simulation T vectors scalars) groups (T.empty, T.empty)
            >>= statistics T config)
        go groups all true =
            Agree-bind (FailsAlike simulations vectors scalars)
              (with_pool T (analyze_singe_simulation T vectors scalars) (T.arrival config) groups
                (T.empty, T.empty))
              (without_pool T (analyze_singe_simulation T vectors scalars) groups
                (T.empty, T.empty))
              (statistics T config) (statistics T config)
              (with_pool-without_pool (analyze_singe_simulation T vectors scalars)
                (T.arrival config)
                (λ v. with_value T var_parameter.0 var_parameter.1 value reads v simulations) groups
                (T.empty, T.empty) all)
              (λ dfs. Agree-refl (FailsAlike simulations vectors scalars) (statistics T config dfs))
