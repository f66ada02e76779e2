-- ===== src/Trace/Tests.antt =====
-- A trace of four points over the natural numbers for floats, and the theorems on it.
use crownet.Prelude.{
  ℕ, ◌≡◌, ◌-◌, ◌+◌, ◌==◌, ltb, refl, some, none, Option, nat_eq, list_eq, lookup, contains, map,
  if◌then◌else◌, decimal, List, [], ◌∷◌, length, Text, text, FirstHit, arith, true, ok, err,
  value_error,
}
use crownet.Floats.{Floats}
use crownet.Trace.Update.{
  RouteFiles, Steps, id_of, update_route, update_persons, update_person, clean_walk, collect_slices,
  first_piece, set_walk, dict_by_id,
}
use crownet.Trace.Update.Pieces.{Cut}
use crownet.Trace.Update.Runs.{update_route-Cut}
use crownet.Trace.Update.Sorted.{dict_by_id_lem, steps_of, by_time}
use crownet.Trace.{TracePoint, Trace, new_trace, find}
use crownet.Trace.Nearest.{hit, NextHit, PrevHit, find_nearest}
use crownet.Trace.Seek.{BmSumoStep, get_step_at}
use crownet.Trace.Seek.Times.{stops, StepAt, get_step_at-first}
use crownet.Trace.Walk.{find_edge_match, apply_slice}
use crownet.Trace.Walk.Routes.{Matched, find_edge_match-Matched}

abbrev naturals : Floats
naturals = record {
  F = ℕ;
  zero = 0;
  lt = ltb;
  eq = ◌==◌;
  sub = λ a b. a - b;
  div = λ a b. a;
  abs = λ a. a;
  norm = λ a b. a + b;
  parse = λ s. some (length s);
}

abbrev point : Text → ℕ → TracePoint ℕ
point edge time = record {
  angle = 0;
  edge = edge;
  id = 7;
  pos = 0;
  slope = 0;
  speed = 0;
  x = time;
  y = 0;
  time = time;
}

abbrev walk : List Text
walk = text "a" ∷ text "b" ∷ text "c" ∷ []

-- The points are sorted by time.
abbrev trace : Trace ℕ
trace =
    new_trace naturals
      (point (text "a") 1 ∷ point (text "c") 9 ∷ point (text "w") 4 ∷ point (text "b") 12 ∷ [])

-- From the jump at time 4, off the walk, the walk up to `a` and that from `c` on.
walk_parts :
    (find_edge_match naturals walk 4 true trace).0
    ≡ ok (record { start = 0; stop = 1 } ∷ record { start = 2; stop = 3 } ∷ [])
unfolding find_edge_match new_trace
walk_parts = refl

no_such_time : (find_edge_match naturals walk 5 true trace).0 ≡ err value_error
unfolding find_edge_match new_trace
no_such_time = refl

step_edges : get_step_at naturals 9 3 7 trace ≡ (
  ok (record {
    bm_id = 3;
    sumo_id = 7;
    time = 9;
    dist = 5;
    speed = 5;
    edge_1 = text "w";
    edge_2 = text "c";
  }),
  trace,
)
unfolding get_step_at new_trace
step_edges = refl

abbrev started : Trace ℕ
started = record { points = point (text "a") 1 ∷ point (text "b") 2 ∷ []; head = some 0 }

find_nearest_example :
    (later earlier : Option ℕ) × (find walk (text "next") started ≡ ok later)
    × NextHit (hit walk started) 0 2 later
    × (find walk (text "prev") started ≡ ok earlier)
    × PrevHit (hit walk started) 0 earlier
find_nearest_example = find_nearest walk started 0 refl (omega arith)

get_step_at-first_example :
    (r : Option ℕ) × FirstHit (stops naturals 2 true started) 2 r
    × StepAt naturals 2 3 7 started r (get_step_at naturals 2 3 7 started)
get_step_at-first_example = get_step_at-first naturals 2 3 7 started

find_edge_match-Matched_example :
    (r : Option ℕ) × FirstHit (stops naturals 2 true started) 2 r
    × Matched naturals walk true started r (find_edge_match naturals walk 2 true started)
find_edge_match-Matched_example = find_edge_match-Matched naturals walk 2 true started

-- The step of the jump at time 4, and the person whose walk it cuts.
abbrev jump : BmSumoStep ℕ
jump = record {
  bm_id = 3;
  sumo_id = 7;
  time = 4;
  dist = 3;
  speed = 3;
  edge_1 = text "a";
  edge_2 = text "w";
}

abbrev walkers : RouteFiles
walkers = record {
  route =
      record { id = text "6"; walk = some (text "c" ∷ []) }
      ∷ record { id = text "7"; walk = some walk }
      ∷ [];
  backup = none;
}

abbrev cut_walkers : RouteFiles
cut_walkers = record {
  route =
      record { id = text "6"; walk = some (text "c" ∷ []) }
      ∷ record { id = text "7"; walk = some (text "a" ∷ []) }
      ∷ [];
  backup = some walkers.route;
}

update_route-Cut_example :
    Cut cut_walkers.route walkers.route
    × (cut_walkers.backup ≡ some walkers.route)
    × (update_route naturals [] [] cut_walkers ≡ ok cut_walkers)
unfolding update_route update_persons update_person clean_walk collect_slices first_piece
    apply_slice set_walk find_edge_match new_trace decimal
update_route-Cut_example =
    update_route-Cut naturals ((7, jump ∷ []) ∷ []) [] ((7, trace) ∷ []) [] walkers cut_walkers refl
      refl refl

dict_by_id_lem_example :
    (after : Steps naturals) × (dict_by_id naturals (jump ∷ []) true ≡ ok after)
    × ((k : ℕ)
        → lookup k after ≡ (
            if contains (map (id_of naturals true) (jump ∷ [])) k
            then some (steps_of naturals true k (by_time naturals true (jump ∷ [])))
            else none))
dict_by_id_lem_example = dict_by_id_lem naturals true (jump ∷ [])
