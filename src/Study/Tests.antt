-- ===== src/Study/Tests.antt =====
-- The study on tables of names, with two simulations for each configuration.
use mathlib.Core.List.{append_assoc, append-nil}
use crownet.Prelude.{
  ℕ, ◌*◌, ◌==◌, ◌≡◌, refl, Bool, true, false, Option, List, [], ◌∷◌, ◌++◌, map, filter,
  if◌then◌else◌, Text, text, decimal, list_eq, nat_eq, lookup, Unique, Result, ok, err, Exception,
  value_error, index_error, FirstHit,
}
use crownet.Study.{
  Tools, get_parameter_to_sims, analyze_parameter_study, analyze_singe_simulation,
  retrieve_vector_data, retrieve_scalar_data, with_pool, starmap, get_vector_names,
}
use crownet.Study.Groups.{found, with_value, get_parameter_to_sims-filter}
use crownet.Study.Agree.{Agree}
use crownet.Study.Parallel.{IsFlat, FailsAlike, analyze_parameter_study-processes}
use crownet.Study.Memory.{Host, sumo, analysed, get_results_dir, run_parameter_study}
use crownet.Study.Retries.{fits, started, run_parameter_study-first}
use crownet.Study.Main.{Tables, World, configs, collect, analysis, run_studies, main}
use crownet.Study.Parts.{missing}
use crownet.Study.Resume.{AllDone, collect-resumes}
use crownet.Study.Readable.{AllSound}
use crownet.Study.Restart.{Again, main-restarts}
use crownet.Study.Paths.{configs-IsSetList}

abbrev flatten : List (List Text) → List Text
flatten [] = []
flatten (xs ∷ xss) = xs ++ flatten xss

abbrev is_nil : List Text → Bool
is_nil [] = true
is_nil (x ∷ xs) = false

-- A simulation is its number with the value of its parameter.
abbrev tools : Tools
tools = record {
  Frame = List Text;
  empty = [];
  is_empty = is_nil;
  concat = flatten;
  keyed = λ name key frame. frame;
  merge_vectors = ◌++◌;
  merge_index = ◌++◌;
  aggregate = λ frame. ok frame;
  append_rows = ◌++◌;
  scalar_column = λ name frame. frame;
  Sim = ℕ × Text;
  label = λ sim. decimal sim.0;
  read_parameters = λ sim m name. sim.1 ∷ [];
  vec_data_pivot = λ sim m columns. ok (decimal sim.0 ∷ []);
  sca_data = λ sim m name. ok (name ∷ []);
  arrival = λ config value. 1;
}

tools-IsFlat : IsFlat tools
tools-IsFlat = record {
  nested_last = λ a x xs. rw (append-nil (x ++ flatten xs)) refl;
  nested_first = λ a x y ys. rw (append-nil x) (append_assoc a x (y ++ flatten ys));
}

abbrev failing : Exception → Result ℕ
failing e = err e

-- Of two calls that fail, the second may be the one that arrives first.
second_first : starmap 1 failing (value_error ∷ index_error ∷ []) ≡ err index_error
unfolding starmap
second_first = refl

abbrev three : List (ℕ × Text)
three = (1, text "1s") ∷ (2, text "2s") ∷ (3, text "1s") ∷ []

get_parameter_to_sims-filter_example :
    (groups : List (Text × List (ℕ × Text))) × (get_parameter_to_sims tools three
        (text "app")
        (text "interval")
      ≡ ok groups)
    × Unique groups
    × ((v : Text)
        → lookup v groups
          ≡ found (
              with_value tools
                (text "app")
                (text "interval")
                (λ sim. sim.1)
                (λ sim. ([], refl))
                v
                three))
get_parameter_to_sims-filter_example =
    get_parameter_to_sims-filter tools (text "app") (text "interval") (λ sim. sim.1)
      (λ sim. ([], refl)) three

analyze_parameter_study-processes_example :
    Agree
      (FailsAlike tools tools-IsFlat
        (text "app", text "interval")
        (λ sim. sim.1)
        (λ sim. ([], refl))
        three
        ((text "app", text "rtt" ∷ []) ∷ [])
        ((text "mac", text "received" ∷ []) ∷ []))
      (analyze_parameter_study tools 10 three
        (text "sumoSimple")
        (text "app", text "interval")
        ((text "app", text "rtt" ∷ []) ∷ [])
        ((text "mac", text "received" ∷ []) ∷ []))
      (analyze_parameter_study tools 1 three
        (text "sumoSimple")
        (text "app", text "interval")
        ((text "app", text "rtt" ∷ []) ∷ [])
        ((text "mac", text "received" ∷ []) ∷ []))
analyze_parameter_study-processes_example =
    analyze_parameter_study-processes tools tools-IsFlat (text "app", text "interval")
      (λ sim. sim.1) (λ sim. ([], refl)) 10 three (text "sumoSimple")
      ((text "app", text "rtt" ∷ []) ∷ []) ((text "mac", text "received" ∷ []) ∷ [])

-- A host without memory at the first reading, and with room for two simulations of SUMO later.
abbrev host : Host
host = record {
  abspath = λ path. path;
  dir_exists = λ path. false;
  memory = λ i. if i == 0 then 0 else 7 * 1073741824;
  new_seed_variation = λ variations. variations;
  confirmation = text "n";
}

run_parameter_study-first_example :
    (r : Option ℕ) × FirstHit (fits host sumo 0) 21 r
    × (run_parameter_study host
          (text "./")
          sumo
          (text "sumoSimple")
          []
          (record { readings = 0; events = [] })
        ≡ started host sumo
            (get_results_dir host (text "./"))
            (text "sumoSimple")
            []
            (record { readings = 0; events = [] })
            r)
run_parameter_study-first_example =
    run_parameter_study-first host sumo (text "./") (text "sumoSimple") []
      (record { readings = 0; events = [] }) refl

-- The table of an empty frame has no header that could be read.
abbrev read_rows : List Text → Result (List Text)
read_rows [] = err value_error
read_rows (x ∷ xs) = ok (x ∷ xs)

abbrev tables : Tables tools
tables = record {
  Csv = List Text;
  to_csv = λ frame. frame;
  read_csv = read_rows;
  get_simulations = λ dir. three;
}

-- The result file of one configuration is there.
abbrev one_file : World (List Text)
one_file = record {
  machine = record { readings = 0; events = [] };
  files = (text "r/sumoSimple/qoi_part_sumoSimple.csv", text "row" ∷ []) ∷ [];
}

all_done : (dir : Text) → AllDone tools tables host dir configs
unfolding analysis analyze_parameter_study get_parameter_to_sims analyze_singe_simulation
    retrieve_vector_data retrieve_scalar_data with_pool get_vector_names
all_done dir = (
  (_, refl, refl),
  (
    (_, refl, refl),
    (
      (_, refl, refl),
      (
        (_, refl, refl),
        (
          (_, refl, refl),
          (
            (_, refl, refl),
            ((_, refl, refl), ((_, refl, refl), ((_, refl, refl), ((_, refl, refl), tt)))),
          ),
        ),
      ),
    ),
  ),
)

readable : AllSound tools tables host (text "r") configs one_file.files
readable = (
  refl,
  refl,
  (
    refl,
    refl,
    (
      refl,
      refl,
      (
        refl,
        refl,
        (refl, refl, (refl, refl, (refl, refl, (refl, refl, (refl, refl, (refl, refl, tt)))))),
      ),
    ),
  ),
)

readable_here : AllSound tools tables host (get_results_dir host (text "./")) configs one_file.files
unfolding get_results_dir
readable_here = (
  refl,
  refl,
  (
    refl,
    refl,
    (
      refl,
      refl,
      (
        refl,
        refl,
        (refl, refl, (refl, refl, (refl, refl, (refl, refl, (refl, refl, (refl, refl, tt)))))),
      ),
    ),
  ),
)

collect-resumes_example :
    (last : List Text × List Text) × (w : World (List Text)) × (next : List Text × List Text)
    × (collect tools tables host (text "r") configs ([], []) one_file ≡ (ok last, w))
    × (w.machine.events
        ≡ map analysed (filter (missing tools tables host (text "r") one_file.files) configs))
    × (collect tools tables host (text "r") configs ([], []) w ≡ (ok next, w))
collect-resumes_example =
    collect-resumes tools tables host (text "r") configs ([], []) ([], []) one_file
      (configs-IsSetList tools tables host (text "r")) (all_done (text "r")) readable

-- The same host later: the studies have run, and the answer to the question is yes.
abbrev later : Host
later = record host { dir_exists = λ path. true; confirmation = text "yes" }

abbrev hundredths : ℕ → Text
hundredths p = text "0.0" ++ decimal p

same_dir : get_results_dir later (text "./") ≡ get_results_dir host (text "./")
unfolding get_results_dir
same_dir = refl

main-restarts_example :
    (last : List Text × List Text) × (w' : World (List Text)) × (s : World (List Text))
    × (r : Result (List Text × List Text)) × (w'' : World (List Text)) × (main tools tables host
          (text "./")
          hundredths
          one_file
        ≡ (ok last, w'))
    × (run_studies tools tables later (text "./") hundredths configs w' ≡ (ok tt, s))
    × (main tools tables later (text "./") hundredths w' ≡ (r, w''))
    × Again tools tables (text "./") hundredths later last s r w''
main-restarts_example =
    main-restarts tools tables (text "./") hundredths host later one_file same_dir refl
      (all_done (get_results_dir host (text "./"))) readable_here
