-- ===== src/Trace/Report.antt =====
-- clean_sumo_traces.py: what `main` writes of the steps that the runs have found, and the texts of
-- `BmSumoStep`. The JSON file and the output of `run` are left out; floats are printed by a parameter.
pub mod Files
use crownet.Prelude.{
  ℕ, suc, ◌+◌, ◌*◌, ◌==◌, ltb, leb, Bool, true, false, not, Option, none, some, List, [], ◌∷◌, ◌++◌,
  if◌then◌else◌, Text, text, list_eq, nat_eq, list_beq, decimal, join, lookup, put, sort,
  starts_with, length, filter, or_else, map,
}
use crownet.Trace.Seek.{BmSumoStep}

-- `print` ends a line where it is given no other end, also where it is given `None`.
abbrev pub end_of : Option Text → Text
end_of none = text "\n"
end_of (some end_text) = end_text

abbrev pub keys : List Text
keys =
    text "bm_id"
    ∷ text "sumo_id"
    ∷ text "time"
    ∷ text "dist"
    ∷ text "speed"
    ∷ text "edge_1"
    ∷ text "edge_2"
    ∷ []

unfoldable pub csv_header : Option Text → Text
csv_header end_text = join b';' keys ++ end_of end_text

-- `needle in s`
abbrev pub has_part : Text → Text → Bool
has_part [] needle = starts_with [] needle
has_part (c ∷ s) needle = if starts_with (c ∷ s) needle then true else has_part s needle

module _ {F : Type 0} (shown : F → Text) where
  abbrev pub csv_values : BmSumoStep F → List Text
  csv_values s =
      decimal s.bm_id
      ∷ decimal s.sumo_id
      ∷ shown s.time
      ∷ shown s.dist
      ∷ shown s.speed
      ∷ s.edge_1
      ∷ s.edge_2
      ∷ []

  -- `csv_line` with all keys.
  unfoldable pub csv_line : BmSumoStep F → Option Text → Text
  csv_line s end_text = join b';' (csv_values s) ++ end_of end_text

  abbrev pub edges : BmSumoStep F → Text
  edges s = s.edge_1 ++ (text "->" ++ s.edge_2)

  abbrev pub edges_dist : BmSumoStep F → Text
  edges_dist s = s.edge_1 ++ (text "->" ++ (s.edge_2 ++ (text "->" ++ shown s.dist)))

  abbrev pub same_edge : BmSumoStep F → Bool
  same_edge s = list_beq s.edge_1 s.edge_2

  unfoldable pub info_str : BmSumoStep F → Text
  info_str s =
      text "Node [Bm/Sumo] "
      ++ (decimal s.bm_id
          ++ (text "/"
              ++ (decimal s.sumo_id
                  ++ (text " at time "
                      ++ (shown s.time
                          ++ (text "\ndist "
                              ++ (shown s.dist
                                  ++ (text "m, speed: "
                                      ++ (shown s.speed
                                          ++ (text " m/s\nedge: "
                                              ++ (edges s
                                                  ++ (if same_edge s
                                                      then text " (Same)\n"
                                                      else text " (DIFF!!!!!)\n"))))))))))))

  -- `Counter.update` with one key.
  abbrev pub count_up : Text → List (Text × ℕ) → List (Text × ℕ)
  count_up k d = elim (lookup k d) [ none ↦ put k 1 d | some n ↦ put k (n + 1) d ]

  -- The result of `run` that `main` uses: the steps of one run, and its number.
  abbrev pub Output : Type 0
  Output = List (BmSumoStep F) × ℕ

  -- The loop over the steps of a run.
  unfoldable pub write_steps : ℕ → List (BmSumoStep F) → Text
  unfolding csv_line
  write_steps id [] = []
  write_steps id (s ∷ steps) =
      csv_line s none ++ ((text ";" ++ (decimal id ++ text "\n")) ++ write_steps id steps)

  abbrev pub write_runs : List Output → Text
  write_runs [] = []
  write_runs ((steps, id) ∷ runs) = write_steps id steps ++ write_runs runs

  -- `run_args_map` gives a flag and a result for each file; runs that failed are dropped.
  abbrev pub succeeded : List (Option Output) → List Output
  succeeded [] = []
  succeeded (none ∷ ret) = succeeded ret
  succeeded (some out ∷ ret) = out ∷ succeeded ret

  abbrev pub sorted_runs : List (Option Output) → List Output
  sorted_runs ret = sort (λ a b. ltb a.1 b.1) (succeeded ret)

  -- The text of `steps.csv`.
  unfoldable pub steps_csv : List (Option Output) → Text
  unfolding csv_header
  steps_csv ret = csv_header (some []) ++ (text ";run\n" ++ write_runs (sorted_runs ret))

  -- The counter of the edges.
  abbrev pub count_steps : List (BmSumoStep F) → List (Text × ℕ) → List (Text × ℕ)
  count_steps [] d = d
  count_steps (s ∷ steps) d = count_steps steps (count_up (edges_dist s) d)

  abbrev pub count_runs : List Output → List (Text × ℕ) → List (Text × ℕ)
  count_runs [] d = d
  count_runs ((steps, id) ∷ runs) d = count_runs runs (count_steps steps d)

  unfoldable pub edge_count : List (Option Output) → List (Text × ℕ)
  edge_count ret = count_runs (sorted_runs ret) []

-- The counts of `describe_fast_steps`: steps on one edge, between edges, and on walking areas, and how
-- often each edge or pair of edges occurs.
pub record FastSteps : Type 0 where
  pub same : ℕ
  pub diff : ℕ
  pub walking : ℕ
  pub edge_counts : List (Text × ℕ)

-- One round of the loop over the steps, with the walking areas counted along.
abbrev describe_step : {F : Type 0} → (F → Text) → BmSumoStep F → FastSteps → FastSteps
describe_step shown s seen = record {
  same = if same_edge shown s then seen.same + 1 else seen.same;
  diff = if same_edge shown s then seen.diff else seen.diff + 1;
  walking = if has_part (edges shown s) (text "_w") then seen.walking + 1 else seen.walking;
  edge_counts =
      count_up shown (if same_edge shown s then s.edge_1 else edges shown s) seen.edge_counts;
}

unfoldable pub describe_from :
    {F : Type 0} → (F → Text) → List (BmSumoStep F) → FastSteps → FastSteps
describe_from shown [] seen = seen
describe_from shown (s ∷ steps) seen = describe_from shown steps (describe_step shown s seen)

unfoldable pub describe_fast_steps : {F : Type 0} → (F → Text) → List (BmSumoStep F) → FastSteps
unfolding describe_from
describe_fast_steps shown steps =
    describe_from shown steps (record { same = 0; diff = 0; walking = 0; edge_counts = [] })
