-- ===== src/Positions.antt =====
-- densityMap/study/mf_stationary_m_single_cell.py: the files of random positions, their names, and the
-- variations of a study on them. What suqc makes of the variations is left out.
pub mod Names
pub mod Missing
pub mod Variations
pub mod Groups
pub mod Tests
use crownet.Prelude.{
  ℕ, zero, suc, ◌+◌, ◌-◌, ◌==◌, ltb, leb, Bool, true, false, not, ◌&&◌, ◌||◌, Option, none, some,
  List, [], ◌∷◌, ◌++◌, map, take, length, get_elem?, if◌then◌else◌, Text, text, decimal,
  digits_value, list_eq, list_beq, nat_eq, starts_with, has_text, split, lookup, put, sort, Result,
  ok, err, value_error, index_error, or_raise, ◌>>=◌,
}

abbrev pub is_digit : ℕ → Bool
is_digit c = leb b'0' c && leb c b'9'

-- The digits that a text starts with, and what follows them.
abbrev pub span_digits : Text → Text × Text
span_digits [] = ([], [])
span_digits (c ∷ s) =
    let rest = span_digits s in if is_digit c then (c ∷ rest.0, rest.1) else ([], c ∷ s)

-- Digits at the start, of which there is one at least, and what follows them.
abbrev pub number : Text × Text → Option (Text × Text)
number ([], rest) = none
number (c ∷ s, rest) = some (c ∷ s, rest)

-- `_` and digits.
abbrev pub next_number : Text → Option (Text × Text)
next_number [] = none
next_number (c ∷ s) = if c == b'_' then number (span_digits s) else none

-- `(?P<num>\d+)_(?P<run>\d+)_(?P<seed>\d+)\.ini` at the start of a text. What follows digits is no
-- digit, so that there is only one way to match.
abbrev pub fields_then :
    Option (Text × Text) → (Text → Text → Option (Text × Text × Text)) → Option (Text × Text × Text)
fields_then none next = none
fields_then (some (digits, rest)) next = next digits rest

unfoldable pub fields : Text → Option (Text × Text × Text)
fields s = fields_then (number (span_digits s)) λ num after_num.
    fields_then (next_number after_num) λ run after_run.
      fields_then (next_number after_run)
        λ seed rest. if starts_with rest (text ".ini") then some (num, run, seed) else none

abbrev pub at_place :
    ℕ
    → Option (Text × Text × Text)
    → Option (ℕ × (Text × Text × Text))
    → Option (ℕ × (Text × Text × Text))
at_place k (some found) later = some (k, found)
at_place k none later = later

-- `config_pattern.match`: the first place, counted from `k`, from which the rest matches.
unfoldable pub config_match : ℕ → Text → Option (ℕ × (Text × Text × Text))
unfolding fields
config_match k [] = none
config_match k (c ∷ s) = at_place k (fields (c ∷ s)) (config_match (suc k) s)

-- `s.replace(part, "")`, with the number of characters to leave out first.
abbrev pub removed : Text → ℕ → Text → Text
removed part n [] = []
removed part (suc n) (c ∷ s) = removed part n s
removed part zero (c ∷ s) =
    let dropped = removed part (length part - 1) s in
    let kept = removed part zero s in if starts_with (c ∷ s) part then dropped else c ∷ kept

pub record Trace : Type 0 where
  pub num : ℕ
  pub run : ℕ
  pub seed : ℕ
  pub cfg_base : Text
  pub cfg : Text
  pub base_name : Text
  pub id : Text

-- A slice that ends one character before the number; before an index 0 this is the last character.
abbrev pub base_of : ℕ → Text → Text
base_of zero base_name = take (length base_name - 1) base_name
base_of (suc k) base_name = take k base_name

abbrev pub trace_from : Text → Option (ℕ × (Text × Text × Text)) → Result Trace
trace_from base_name none = err value_error
trace_from base_name (some (k, (num, run, seed))) = ok (record {
  num = digits_value 0 num;
  run = digits_value 0 run;
  seed = digits_value 0 seed;
  cfg_base = base_of k base_name;
  cfg = removed (text ".ini") 0 base_name;
  base_name = base_name;
  id = base_of k base_name ++ (b'_' ∷ decimal (digits_value 0 num));
})

-- The entry of one file.
unfoldable pub trace_of : Text → Result Trace
unfolding config_match
trace_of base_name = trace_from base_name (config_match 0 base_name)

-- `sim.get(id, [])` with one more run.
abbrev pub runs_of : Option (List Trace) → List Trace
runs_of none = []
runs_of (some runs) = runs

abbrev pub add_run : Trace → List (Text × List Trace) → List (Text × List Trace)
add_run t sim = put t.id (runs_of (lookup t.id sim) ++ (t ∷ [])) sim

module _ (basename : Text → Text) where
  -- The loop over the files that `glob` finds.
  unfoldable pub collect_traces :
      (Text → Bool) → List Text → List (Text × List Trace) → Result (List (Text × List Trace))
  unfolding trace_of
  collect_traces include_filter [] sim = ok sim
  collect_traces include_filter (path ∷ paths) sim =
      if include_filter path
      then (trace_of (basename path) >>= λ t. collect_traces include_filter paths (add_run t sim))
      else collect_traces include_filter paths sim

  unfoldable pub get_traces : (Text → Bool) → List Text → Result (List (Text × List Trace))
  unfolding collect_traces
  get_traces include_filter paths = collect_traces include_filter paths [] >>= λ sim.
      ok (map (λ entry. (entry.0, sort (λ a b. ltb a.run b.run) entry.1)) sim)

abbrev pub any_text : Text → List ℕ → Text → Bool
any_text prefix [] path = false
any_text prefix (n ∷ ns) path = has_text (prefix ++ decimal n) path || any_text prefix ns path

unfoldable pub only_missing : Text → Bool
only_missing path =
    any_text (text "full_") (4 ∷ 6 ∷ 12 ∷ 38 ∷ 44 ∷ 50 ∷ []) path
    || any_text (text "quarter_") (48 ∷ 64 ∷ 96 ∷ 128 ∷ 152 ∷ 176 ∷ 200 ∷ []) path

-- The commands of `_create_trace_from_list`: those of the second area also have an offset.
abbrev pub trace_args : Text → Text → Text → Text → Text → List Text
trace_args scenario seed number_of_runs base_dir config_name =
    text "--vadere"
    ∷ scenario
    ∷ text "--seed"
    ∷ seed
    ∷ text "--seed-type"
    ∷ text "pos"
    ∷ text "--number-of-runs"
    ∷ number_of_runs
    ∷ text "--config-name"
    ∷ config_name
    ∷ text "--output-dir"
    ∷ base_dir
    ∷ []

abbrev pub offset : List Text
offset = text "--offset" ∷ text "0.25" ∷ text "0.25" ∷ text "0.5" ∷ text "0.5" ∷ []

abbrev pub positions : Text → List Text → List ℕ → List (List Text)
positions cmd args nodes =
    map (λ num. cmd ∷ (args ++ (text "--number-of-positions" ∷ decimal num ∷ []))) nodes

unfoldable pub create_trace_from_list :
    Text → Text → List ℕ → List ℕ → Text → Text → Text → List (List Text)
create_trace_from_list cmd scenario nodes_area_1 nodes_area_2 seed base_dir number_of_runs =
    positions cmd (trace_args scenario seed number_of_runs base_dir (text "density_full"))
      nodes_area_1
    ++ positions cmd
        (trace_args scenario seed number_of_runs base_dir (text "density_quarter") ++ offset)
        nodes_area_2

unfoldable pub create_positions_2 : Text → Text → Text → Text → Text → List (List Text)
unfolding create_trace_from_list
create_positions_2 cmd scenario seed base_dir number_of_runs =
    create_trace_from_list cmd scenario (2 ∷ 8 ∷ 16 ∷ 24 ∷ 32 ∷ 48 ∷ 64 ∷ [])
      (2 ∷ 4 ∷ 6 ∷ 8 ∷ 12 ∷ 16 ∷ []) seed base_dir number_of_runs

unfoldable pub create_missing_2 : Text → Text → Text → Text → Text → List (List Text)
unfolding create_trace_from_list
create_missing_2 cmd scenario seed base_dir number_of_runs =
    create_trace_from_list cmd scenario (4 ∷ 6 ∷ 12 ∷ 38 ∷ 44 ∷ 50 ∷ [])
      (48 ∷ 64 ∷ 96 ∷ 128 ∷ 152 ∷ 176 ∷ 200 ∷ []) seed base_dir number_of_runs

-- `var_ydist` and `var_ymf`, which differ in the map; the random start time comes from the seed.
pub data Algorithm : Type 0 where
  ydist ymf : Algorithm

pub record Variation : Type 0 where
  pub algorithm : Algorithm
  pub opp_seed : ℕ
  pub position_path : Text

abbrev pub algorithms : Text → List Algorithm
algorithms alg_filter =
    if list_beq alg_filter (text "both")
    then ydist ∷ ymf ∷ []
    else if list_beq alg_filter (text "ymf")
    then ymf ∷ []
    else ydist ∷ []

-- The loop over the runs of one algorithm; `get_elem?` finds no seed for a run beyond them.
abbrev pub vary_runs : List ℕ → Algorithm → List Trace → Result (List Variation)
vary_runs opp_seeds f [] = ok []
vary_runs opp_seeds f (t ∷ runs) = do
  opp_seed ← or_raise (get_elem? opp_seeds t.run) index_error
  rest ← vary_runs opp_seeds f runs
  ok (record { algorithm = f; opp_seed = opp_seed; position_path = t.base_name } ∷ rest)

abbrev pub vary_algorithms : List ℕ → List Algorithm → List Trace → Result (List Variation)
vary_algorithms opp_seeds [] runs = ok []
vary_algorithms opp_seeds (f ∷ fs) runs = do
  here ← vary_runs opp_seeds f runs
  rest ← vary_algorithms opp_seeds fs runs
  ok (here ++ rest)

-- The loop of `main` that makes the variations.
unfoldable pub variations :
    List ℕ → List Algorithm → List (Text × List Trace) → Result (List Variation)
variations opp_seeds fs [] = ok []
variations opp_seeds fs ((name, runs) ∷ traces) =
    if length runs == length opp_seeds
    then (vary_algorithms opp_seeds fs runs >>= λ here.
        variations opp_seeds fs traces >>= λ rest. ok (here ++ rest))
    else err value_error
