-- ===== src/Positions/Tests.antt =====
-- Files of positions, their names and their variations.
use crownet.Prelude.{
  ℕ, ◌≡◌, refl, true, List, [], ◌∷◌, ◌++◌, Text, text, decimal, ok, ◌>>=◌, err, value_error, arith,
}
use crownet.Positions.{
  Trace, ydist, ymf, Variation, fields, config_match, removed, trace_of, get_traces, variations,
}
use crownet.Positions.Names.{file_name, trace_of-file_name}
use crownet.Positions.Missing.{IsMistaken, only_missing-file_name}
use crownet.Positions.Groups.{sorted_group, get_traces-variations}
use crownet.Positions.Variations.{AreVaried, variations-AreVaried}

trace_of-file_name_example :
    trace_of (file_name (text "density_full") 48 3 77)
    ≡ ok (record {
      num = 48;
      run = 3;
      seed = 77;
      cfg_base = text "density_full";
      cfg = removed (text ".ini") 0 (file_name (text "density_full") 48 3 77);
      base_name = file_name (text "density_full") 48 3 77;
      id = text "density_full" ++ (b'_' ∷ decimal 48);
    })
trace_of-file_name_example = trace_of-file_name (text "density_full") 48 3 77 (
  refl,
  (refl, (refl, (refl, (refl, (refl, (refl, (refl, (refl, (refl, (refl, (refl, tt))))))))))),
)

trace_of-other : trace_of (text "density_full.ini") ≡ err value_error
unfolding trace_of config_match fields
trace_of-other = refl

only_missing-file_name_example :
    IsMistaken
      (text "trace_of")
      (text "a.scenario")
      (text "1")
      (text "out")
      (text "20")
      (text "d/")
      3
      77
      48
    × IsMistaken
        (text "trace_of")
        (text "a.scenario")
        (text "1")
        (text "out")
        (text "20")
        (text "d/")
        3
        77
        64
only_missing-file_name_example =
    only_missing-file_name (text "trace_of") (text "a.scenario") (text "1") (text "out") (text "20")
      (text "d/") 3 77

abbrev trace : ℕ → Text → Trace
trace run base_name = record {
  num = 2;
  run = run;
  seed = 77;
  cfg_base = text "p";
  cfg = base_name;
  base_name = base_name;
  id = text "p_2";
}

abbrev two_runs : List (Text × List Trace)
two_runs = (text "p_2", trace 0 (text "a") ∷ trace 1 (text "b") ∷ []) ∷ []

variations-AreVaried_example :
    (vs : List Variation) × (variations (11 ∷ 12 ∷ []) (ydist ∷ ymf ∷ []) two_runs ≡ ok vs)
    × AreVaried (11 ∷ 12 ∷ []) (ydist ∷ ymf ∷ []) two_runs vs
variations-AreVaried_example =
    variations-AreVaried (11 ∷ 12 ∷ []) (ydist ∷ ymf ∷ []) two_runs
      (refl, (omega arith, (omega arith, tt)), tt)

abbrev two_files : List (ℕ × ℕ)
two_files = (1, 5) ∷ (0, 4) ∷ []

-- Everything after the folder `d/`.
abbrev in_folder : Text → Text
in_folder (c ∷ d ∷ name) = name
in_folder name = name

get_traces-variations_example :
    (vs : List Variation) × ((get_traces in_folder
          (λ path. true)
          ((text "d/" ++ file_name (text "p") 2 1 5)
            ∷ (text "d/" ++ file_name (text "p") 2 0 4)
            ∷ [])
        >>= variations (11 ∷ 12 ∷ []) (ydist ∷ ymf ∷ []))
      ≡ ok vs)
    × AreVaried
        (11 ∷ 12 ∷ [])
        (ydist ∷ ymf ∷ [])
        (sorted_group
          (text "p")
          (text "d/")
          2
          (refl, tt)
          in_folder
          (λ f. refl)
          (λ path. true)
          (λ f. refl)
          two_files)
        vs
get_traces-variations_example =
    get_traces-variations (text "p") (text "d/") 2 (refl, tt) in_folder (λ f. refl) (λ path. true)
      (λ f. refl) (ydist ∷ ymf ∷ []) (11 ∷ 12 ∷ []) (1, 5) ((0, 4) ∷ []) refl
      (omega arith, (omega arith, tt))
