-- ===== src/Trace/Extract.antt =====
-- clean_sumo_traces.py: `extract_steps`, which collects the traces of the pedestrians that moved too
-- far, and their steps. The parsed output of SUMO is a list of time steps with their persons; the order
-- in which pandas sorts the violations is a parameter, since it is not stable.
pub mod Copies
pub mod Entries
pub mod Steps
pub mod Tests
use crownet.Floats.{Floats}
use crownet.Prelude.{
  ℕ, Bool, true, false, ◌||◌, ◌==◌, Option, none, some, List, [], ◌∷◌, ◌++◌, if◌then◌else◌,
  get_elem?, map, nat_eq, lookup, put, Text, Result, ok, err, type_error, value_error, index_error,
  key_error, ◌>>=◌, or_raise, filter,
}
use crownet.Trace.{TracePoint, Trace, new_trace}
use crownet.Trace.Read.{BmRow, unique, to_frame, find_speed_violations}
use crownet.Trace.Seek.{BmSumoStep, get_step_at}

pub record TimeIdMapping (F : Type 0) : Type 0 where
  pub time : F
  pub sumo_id : ℕ
  pub bm_id : ℕ

-- A time step of the output: its time, and the attributes of the persons in it.
pub record TimeStep (F : Type 0) : Type 0 where
  pub time : F
  pub persons : List (TracePoint F)

module _ {F : Type 0} where
  -- The first person with an id: `time_step.find(xpath_person)`.
  abbrev pub person_in : ℕ → List (TracePoint F) → Option (TracePoint F)
  person_in k [] = none
  person_in k (p ∷ persons) = if p.id == k then some p else person_in k persons

  abbrev point_of : F → Option (TracePoint F) → List (TracePoint F) → List (TracePoint F)
  point_of t none points = points
  point_of t (some p) points = record p { time = t } ∷ points

  -- The points of a person, from the time steps in which it is.
  abbrev pub points_of : ℕ → List (TimeStep F) → List (TracePoint F)
  points_of k [] = []
  points_of k (s ∷ steps) = point_of s.time (person_in k s.persons) (points_of k steps)

  -- `sumo_id_list[id]` for each record.
  abbrev pub time_id_records : List ℕ → List (BmRow F) → Result (List (TimeIdMapping F))
  time_id_records ids [] = ok []
  time_id_records ids (r ∷ rows) = do
    k ← or_raise (get_elem? ids r.id) index_error
    rest ← time_id_records ids rows
    ok (record { time = r.time; sumo_id = k; bm_id = r.id } ∷ rest)

  -- An empty list for each pedestrian.
  abbrev pub empty_traces :
      List ℕ → List ℕ → List (ℕ × List (TracePoint F)) → Result (List (ℕ × List (TracePoint F)))
  empty_traces ids [] d = ok d
  empty_traces ids (b ∷ bs) d = do
    k ← or_raise (get_elem? ids b) index_error
    empty_traces ids bs (put k [] d)

  -- `traces[k].append` for each of some points.
  abbrev pub extend_at :
      ℕ
      → List (TracePoint F)
      → List (ℕ × List (TracePoint F))
      → Result (List (ℕ × List (TracePoint F)))
  extend_at k [] d = ok d
  extend_at k (p ∷ points) d = do
    old ← or_raise (lookup k d) key_error
    ok (put k (old ++ (p ∷ points)) d)

  -- The loop over the records, which collects the points of a pedestrian for each of its records.
  unfoldable pub collect :
      List (TimeStep F)
      → List (TimeIdMapping F)
      → List (ℕ × List (TracePoint F))
      → Result (List (ℕ × List (TracePoint F)))
  collect fcd [] d = ok d
  collect fcd (r ∷ records) d = do
    d' ← extend_at r.sumo_id (points_of r.sumo_id fcd) d
    collect fcd records d'

module _ (R : Floats) where
  open R use {F}

  -- `Trace.from_json_list` for each entry.
  abbrev pub traces_of : List (ℕ × List (TracePoint F)) → List (ℕ × Trace F)
  traces_of [] = []
  traces_of ((k, points) ∷ d) = (k, new_trace R points) ∷ traces_of d

  -- The second loop over the records; `get_step_at` may change the trace in the dict.
  unfoldable pub create_steps :
      List (TimeIdMapping F)
      → List (ℕ × Trace F)
      → Result (List (BmSumoStep F) × List (ℕ × Trace F))
  create_steps [] d = ok ([], d)
  create_steps (r ∷ records) d = do
    t ← or_raise (lookup r.sumo_id d) key_error
    s ← (get_step_at R r.time r.bm_id r.sumo_id t).0
    more ← create_steps records (put r.sumo_id (get_step_at R r.time r.bm_id r.sumo_id t).1 d)
    ok (s ∷ more.0, more.1)

  unfoldable pub extract_steps :
      (List (BmRow F) → List (BmRow F))
      → List (TimeStep F)
      → List (BmRow F)
      → List ℕ
      → Result (List (BmSumoStep F) × List (ℕ × Trace F))
  extract_steps by_time fcd violations ids = do
    records ← time_id_records ids (by_time violations)
    empty ← empty_traces ids (unique violations) []
    collected ← collect fcd records empty
    create_steps records (traces_of collected)

  -- `run`, without what it prints: from the lines of the BonnMotion file and the output of SUMO to the
  -- steps and the traces. A file without a list of ids leaves `None`, and the number of the run is read
  -- from the name of the file.
  unfoldable pub run :
      (is_nan : F → Bool) (parse_id : Text → Option ℕ) (by_time : List (BmRow F) → List (BmRow F))
      (max_speed max_dist : F) (file : List Text) (fcd : List (TimeStep F)) (number : Option ℕ)
      → Result ((List (BmSumoStep F) × List (ℕ × Trace F)) × ℕ)
  unfolding to_frame find_speed_violations extract_steps
  run is_nan parse_id by_time max_speed max_dist file fcd number =
      let read = to_frame R is_nan parse_id file in
      do
        rows ← read.0
        ids ← or_raise read.1 type_error
        let info = find_speed_violations R max_speed max_dist rows
        found ← extract_steps by_time fcd info.df_dist_violations ids
        id ← or_raise number value_error
        ok (found, id)
