-- ===== src/Positions/Groups.antt =====
-- mf_stationary_m_single_cell.py: from the files of one configuration to its variations.
use mathlib.Core.List.{append_assoc, append-nil}
use crownet.Prelude.{
  ℕ, ◌<◌, ◌≡◌, ◌∙◌, refl, ap, ltb, Bool, true, false, List, [], ◌∷◌, ◌++◌, map, length, length-map,
  if◌then◌else◌, Text, text, list_eq, nat_eq, beq_self, decimal, sort, insert_sorted, length-sort,
  ok, ◌>>=◌,
}
use crownet.Positions.{
  Trace, Algorithm, Variation, removed, add_run, collect_traces, get_traces, variations,
}
use crownet.Positions.Names.{HasNoDigits, file_name, trace_of-file_name}
use crownet.Positions.Variations.{AreSeeded, AreComplete, AreVaried, variations-AreVaried}

abbrev pub by_run : Trace → Trace → Bool
by_run a b = ltb a.run b.run

insert_sorted-AreSeeded :
    (seeds : List ℕ) (t : Trace) (runs : List Trace)
    → t.run < length seeds
    → AreSeeded seeds runs
    → AreSeeded seeds (insert_sorted by_run t runs)
insert_sorted-AreSeeded seeds t [] below h = (below, tt)
insert_sorted-AreSeeded seeds t (u ∷ runs) below (first, h) =
    go (by_run u t) (insert_sorted-AreSeeded seeds t runs below h)
  where
    go :
        (b : Bool)
        → AreSeeded seeds (insert_sorted by_run t runs)
        → AreSeeded seeds (if b then u ∷ insert_sorted by_run t runs else t ∷ u ∷ runs)
    go true rest = (first, rest)
    go false rest = (below, (first, h))

sort-AreSeeded :
    (seeds : List ℕ) (runs : List Trace) → AreSeeded seeds runs → AreSeeded seeds (sort by_run runs)
sort-AreSeeded seeds [] h = tt
sort-AreSeeded seeds (t ∷ runs) (below, h) =
    insert_sorted-AreSeeded seeds t (sort by_run runs) below (sort-AreSeeded seeds runs h)

module _ (base dir : Text) (num : ℕ) (plain : HasNoDigits base) where
  abbrev pub path : ℕ × ℕ → Text
  path (run, seed) = dir ++ file_name base num run seed

  abbrev pub group_id : Text
  group_id = base ++ (b'_' ∷ decimal num)

  -- The entry of a file with a run and a seed.
  abbrev pub entry : ℕ × ℕ → Trace
  entry (run, seed) = record {
    num = num;
    run = run;
    seed = seed;
    cfg_base = base;
    cfg = removed (text ".ini") 0 (file_name base num run seed);
    base_name = file_name base num run seed;
    id = group_id;
  }

  module _ (basename : Text → Text)
      (of_path : (f : ℕ × ℕ) → basename (path f) ≡ file_name base num f.0 f.1)
      (include_filter : Text → Bool) (included : (f : ℕ × ℕ) → include_filter (path f) ≡ true) where
    collect_step :
        (f : ℕ × ℕ) (files : List (ℕ × ℕ)) (sim : List (Text × List Trace))
        → collect_traces basename include_filter (map path (f ∷ files)) sim
          ≡ collect_traces basename include_filter (map path files) (add_run (entry f) sim)
    unfolding collect_traces
    collect_step (run, seed) files sim =
        rw (included (run, seed), of_path (run, seed), trace_of-file_name base num run seed plain)
          refl

    collect_more :
        (files : List (ℕ × ℕ)) (runs : List Trace)
        → collect_traces basename include_filter (map path files) ((group_id, runs) ∷ [])
          ≡ ok ((group_id, runs ++ map entry files) ∷ [])
    unfolding collect_traces
    collect_more [] runs = rw (append-nil runs) refl
    collect_more (f ∷ files) runs =
        collect_step f files ((group_id, runs) ∷ [])
        ∙ rw (beq_self group_id) (
            collect_more files (runs ++ (entry f ∷ []))
            ∙ rw (append_assoc runs (entry f ∷ []) (map entry files)) refl)

    get_traces_lem :
        (f : ℕ × ℕ) (files : List (ℕ × ℕ))
        → get_traces basename include_filter (map path (f ∷ files))
          ≡ ok ((group_id, sort by_run (map entry (f ∷ files))) ∷ [])
    unfolding get_traces
    get_traces_lem f files =
        ap (λ r. r >>= λ sim. ok (map (λ e. (e.0, sort by_run e.1)) sim))
          (collect_step f files [] ∙ collect_more files (entry f ∷ []))

    -- The only group of the files, sorted by the runs.
    abbrev pub sorted_group : List (ℕ × ℕ) → List (Text × List Trace)
    sorted_group files = (group_id, sort by_run (map entry files)) ∷ []

    -- The runs of the files have a seed.
    abbrev pub HaveSeeds : List ℕ → List (ℕ × ℕ) → Type 0
    HaveSeeds seeds [] = Unit
    HaveSeeds seeds (f ∷ files) = (f.0 < length seeds) × HaveSeeds seeds files

    entries-AreSeeded :
        (seeds : List ℕ) (files : List (ℕ × ℕ))
        → HaveSeeds seeds files
        → AreSeeded seeds (map entry files)
    entries-AreSeeded seeds [] h = tt
    entries-AreSeeded seeds (f ∷ files) (below, h) = (below, entries-AreSeeded seeds files h)

    -- Files of one configuration without digits in its name and of one number of nodes, which are all
    -- included, in any order, as many as there are seeds and at least one, with runs that have a seed:
    -- they make one group, sorted by the runs, and the study has one variation for each algorithm and
    -- each file, in this order, with the seed of the run.
    pub get_traces-variations :
        (fs : List Algorithm) (seeds : List ℕ) (f : ℕ × ℕ) (files : List (ℕ × ℕ))
        → length (f ∷ files) ≡ length seeds
        → HaveSeeds seeds (f ∷ files)
        → (vs : List Variation) × ((get_traces basename include_filter (map path (f ∷ files))
              >>= variations seeds fs)
            ≡ ok vs)
          × AreVaried seeds fs (sorted_group (f ∷ files)) vs
    get_traces-variations fs seeds f files full have =
        let runs = map entry (f ∷ files) in
        let complete : AreComplete seeds (sorted_group (f ∷ files)) = (
          length-sort by_run runs ∙ (length-map entry (f ∷ files) ∙ full),
          sort-AreSeeded seeds runs (entries-AreSeeded seeds (f ∷ files) have),
          tt,
        ) in
        let (vs, varied, all) = variations-AreVaried seeds fs (sorted_group (f ∷ files)) complete in
        (vs, ap (λ r. r >>= variations seeds fs) (get_traces_lem f files) ∙ varied, all)
