-- ===== src/Positions/Variations.antt =====
-- mf_stationary_m_single_cell.py: one variation for each algorithm and each run.
use crownet.Prelude.{
  ℕ, ◌<◌, ◌≡◌, refl, ◌==◌, ==_iff, true, some, List, [], ◌∷◌, ◌++◌, length, get_elem?, get_elem?-lt,
  Text, ok,
}
use crownet.Positions.{Trace, Algorithm, Variation, vary_runs, vary_algorithms, variations}

module _ (opp_seeds : List ℕ) where
  -- There is a seed for each run.
  abbrev pub AreSeeded : List Trace → Type 0
  AreSeeded [] = Unit
  AreSeeded (t ∷ runs) = (t.run < length opp_seeds) × AreSeeded runs

  -- Each configuration has as many runs as there are seeds, and a seed for each of them.
  abbrev pub AreComplete : List (Text × List Trace) → Type 0
  AreComplete [] = Unit
  AreComplete ((name, runs) ∷ traces) =
      (length runs ≡ length opp_seeds) × AreSeeded runs × AreComplete traces

  -- The variations of an algorithm: the file of each run in order, with the seed of its number.
  abbrev pub AreOf : Algorithm → List Trace → List Variation → Type 0
  AreOf f [] [] = Unit
  AreOf f [] (v ∷ vs) = ⊥
  AreOf f (t ∷ runs) [] = ⊥
  AreOf f (t ∷ runs) (v ∷ vs) =
      (v.algorithm ≡ f)
      × (get_elem? opp_seeds t.run ≡ some v.opp_seed)
      × (v.position_path ≡ t.base_name)
      × AreOf f runs vs

  -- Those of the algorithms one after the other, and those of all configurations.
  abbrev pub AreOfAll : List Algorithm → List Trace → List Variation → Type 0
  AreOfAll [] runs vs = vs ≡ []
  AreOfAll (f ∷ fs) runs vs =
      (here : List Variation) × (rest : List Variation) × (vs ≡ here ++ rest)
      × AreOf f runs here
      × AreOfAll fs runs rest

  abbrev pub AreVaried : List Algorithm → List (Text × List Trace) → List Variation → Type 0
  AreVaried fs [] vs = vs ≡ []
  AreVaried fs ((name, runs) ∷ traces) vs =
      (here : List Variation) × (rest : List Variation) × (vs ≡ here ++ rest)
      × AreOfAll fs runs here
      × AreVaried fs traces rest

  vary_runs_lem :
      (f : Algorithm) (runs : List Trace)
      → AreSeeded runs
      → (vs : List Variation) × (vary_runs opp_seeds f runs ≡ ok vs) × AreOf f runs vs
  vary_runs_lem f [] h = ([], refl, tt)
  vary_runs_lem f (t ∷ runs) (below, h) =
      let (seed, found) = get_elem?-lt opp_seeds t.run below in
      let (vs, varied, all) = vary_runs_lem f runs h in
      (
        record { algorithm = f; opp_seed = seed; position_path = t.base_name } ∷ vs,
        rw (found, varied) refl,
        (refl, found, refl, all),
      )

  vary_algorithms_lem :
      (fs : List Algorithm) (runs : List Trace)
      → AreSeeded runs
      → (vs : List Variation) × (vary_algorithms opp_seeds fs runs ≡ ok vs) × AreOfAll fs runs vs
  vary_algorithms_lem [] runs h = ([], refl, refl)
  vary_algorithms_lem (f ∷ fs) runs h =
      let (here, varied, all) = vary_runs_lem f runs h in
      let (rest, others, more) = vary_algorithms_lem fs runs h in
      (here ++ rest, rw (varied, others) refl, (here, rest, refl, all, more))

  -- If each configuration has as many runs as there are seeds, with numbers that have a seed, the loop
  -- of `main` returns: for each configuration in order, and for each algorithm in order, one variation
  -- for each run, with the file of the run and the seed of its number, the same for all algorithms.
  pub variations-AreVaried :
      (fs : List Algorithm) (traces : List (Text × List Trace))
      → AreComplete traces
      → (vs : List Variation) × (variations opp_seeds fs traces ≡ ok vs) × AreVaried fs traces vs
  unfolding variations
  variations-AreVaried fs [] h = ([], refl, refl)
  variations-AreVaried fs ((name, runs) ∷ traces) (same, seeded, h) =
      let (here, varied, all) = vary_algorithms_lem fs runs seeded in
      let (rest, others, more) = variations-AreVaried fs traces h in
      let matched : (length runs == length opp_seeds) ≡ true =
        (==_iff (length runs) (length opp_seeds)).1 same in
      (here ++ rest, rw (matched, varied, others) refl, (here, rest, refl, all, more))
