-- ===== src/Trace/Update.antt =====
-- `BmSumoStep.dict_by_id` and `update_route`: a pedestrian's walk is cut where its trace has taken a
-- step that is too fast. The route file of a run is a list of persons, and the file that is kept for
-- it is another; the name of a run and the text of a file are not needed.
pub mod Pieces
pub mod Runs
pub mod Sorted
pub mod Ids
pub mod Extracted
use crownet.Prelude.{
  ℕ, Bool, true, false, ◌&&◌, Option, none, some, List, [], ◌∷◌, ◌++◌, map, if◌then◌else◌, ltb,
  ◌==◌, list_eq, nat_eq, contains, Text, decimal, list_beq, lookup, put, sort, Result, ok, err,
  index_error, key_error, or_raise, ◌>>=◌,
}
use crownet.Floats.{Floats}
use crownet.Trace.{Trace}
use crownet.Trace.Seek.{BmSumoStep}
use crownet.Trace.Walk.{Slice, apply_slice, find_edge_match}

-- A `person` of the route file, with the edges of its `walk`, if it has one.
pub record Person : Type 0 where
  pub id : Text
  pub walk : Option (List Text)

-- `routes.find(".//person[@id='i']")`, and the change of what it has found.
abbrev pub find_person : ℕ → List Person → Option Person
find_person i [] = none
find_person i (p ∷ ps) = if list_beq p.id (decimal i) then some p else find_person i ps

unfoldable pub set_walk : ℕ → List Text → List Person → List Person
set_walk i edges [] = []
set_walk i edges (p ∷ ps) =
    if list_beq p.id (decimal i)
    then record p { walk = some edges } ∷ ps
    else p ∷ set_walk i edges ps

-- `walk_edges[slices[0]]`
unfoldable pub first_piece : List Text → List Slice → Result (List Text)
first_piece edges [] = err index_error
first_piece edges (s ∷ slices) = ok (apply_slice s edges)

module _ (R : Floats) where
  open R use {F, lt, eq}

  -- The loop over the steps of a pedestrian: the slices, and the trace that the calls leave.
  unfoldable pub collect_slices :
      List Text → List (BmSumoStep F) → Trace F → Result (List Slice × Trace F)
  collect_slices edges [] t = ok ([], t)
  collect_slices edges (s ∷ steps) t = do
    slices ← (find_edge_match R edges s.time true t).0
    (more, end) ← collect_slices edges steps (find_edge_match R edges s.time true t).1
    ok (slices ++ more, end)

  unfoldable pub clean_walk :
      List Text → List (BmSumoStep F) → Trace F → Result (List Text × Trace F)
  unfolding collect_slices first_piece
  clean_walk edges steps t = do
    (slices, end) ← collect_slices edges steps t
    piece ← first_piece edges slices
    ok (piece, end)

  abbrev pub Steps : Type 0
  Steps = List (ℕ × List (BmSumoStep F))

  abbrev pub Traces : Type 0
  Traces = List (ℕ × Trace F)

  -- The id that steps are put under: SUMO's, or that of the BonnMotion file.
  abbrev pub id_of : Bool → BmSumoStep F → ℕ
  id_of true s = s.sumo_id
  id_of false s = s.bm_id

  unfoldable pub empty_lists : Bool → List (BmSumoStep F) → Steps → Steps
  empty_lists sumo_ids [] ret = ret
  empty_lists sumo_ids (s ∷ steps) ret = empty_lists sumo_ids steps (put (id_of sumo_ids s) [] ret)

  unfoldable pub append_steps : Bool → List (BmSumoStep F) → Steps → Result Steps
  append_steps sumo_ids [] ret = ok ret
  append_steps sumo_ids (s ∷ steps) ret =
      or_raise (lookup (id_of sumo_ids s) ret) key_error >>= λ l.
      append_steps sumo_ids steps (put (id_of sumo_ids s) (l ++ (s ∷ [])) ret)

  -- `BmSumoStep.dict_by_id`. That it sorts the caller's list as well is left out.
  unfoldable pub dict_by_id : List (BmSumoStep F) → Bool → Result Steps
  unfolding empty_lists append_steps
  dict_by_id steps sumo_ids =
      append_steps sumo_ids (sort (λ s t. lt s.time t.time) steps) (empty_lists sumo_ids steps [])

  -- The loop over the persons that have steps. A person that is missing or has no walk is passed over.
  unfoldable pub update_person :
      ℕ → List (BmSumoStep F) → Traces → List Person → Result (List Person × Traces)
  unfolding clean_walk set_walk
  update_person i steps traces routes = elim (find_person i routes) [
    | none ↦ ok (routes, traces)
    | some person ↦ elim person.walk [
      | none ↦ ok (routes, traces)
      | some edges ↦ or_raise (lookup i traces) key_error >>= λ t.
          clean_walk edges steps t >>= λ (piece, end).
          ok (set_walk i piece routes, put i end traces)
    ]
  ]

  unfoldable pub update_persons : Steps → Traces → List Person → Result (List Person)
  unfolding update_person
  update_persons [] traces routes = ok routes
  update_persons ((i, steps) ∷ step_dict) traces routes =
      update_person i steps traces routes >>= λ (after, left). update_persons step_dict left after

  -- `set(step_dict.keys()) == set(traces.keys())`
  abbrev pub subset_keys : {V W : Type 0} → List (ℕ × V) → List (ℕ × W) → Bool
  subset_keys [] f = true
  subset_keys ((k, v) ∷ d) f = contains (map (λ p. p.0) f) k && subset_keys d f

  abbrev pub same_keys : Steps → Traces → Bool
  same_keys steps traces = subset_keys steps traces && subset_keys traces steps

-- The route file of a run and the copy that is kept of it.
pub record RouteFiles : Type 0 where
  pub route : List Person
  pub backup : Option (List Person)

-- The body of `update_route` for one run: a run with a backup is passed over, and so is one whose
-- steps and traces do not belong together.
unfoldable pub update_route : (R : Floats) → Steps R → Traces R → RouteFiles → Result RouteFiles
unfolding update_persons
update_route R steps traces files = elim files.backup [
  | some kept ↦ ok files
  | none ↦
      if same_keys R steps traces
      then (update_persons R steps traces files.route >>= λ after.
          ok (record { route = after; backup = some files.route }))
      else ok files
]
