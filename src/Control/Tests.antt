-- ===== src/Control/Tests.antt =====
-- The theorems on the controllers at concrete inputs, with algorithms that answer by simple rules.
use crownet.Prelude.{
  ℕ, ◌+◌, ◌≡◌, refl, Option, none, some, List, [], ◌∷◌, ◌++◌, text, decimal, list_beq, nat_eq,
  arith, if◌then◌else◌, leb, length, ok,
}
use crownet.Control.{Flow, each}
use crownet.Control.Logs.{All, forwards}
use crownet.Control.Munich
use crownet.Control.Munich.Sessions.{session-Counts, Counts, session as munich_session}
use crownet.Control.PingPong
use crownet.Control.Route
use crownet.Control.Route.{avoid_short, closed_loop, local_controller, no_controller, Controller}
use crownet.Control.Route.Progress.{session_goes_on, session-IsApart, windows, IsApart}
use crownet.Control.Route.Recorded.{session-IsRegistered, IsRegistered}
use crownet.Control.Route.Sessions.{avoid_short-only_31, session, SendsOnly31}
use crownet.Control.Route.Steps.{handle_sim_step_lem, chosen, reads, sends, records}

-- Densities are numbers. An algorithm is a list of targets; it gives the first one and puts it last,
-- by densities it stays, and it avoids the short route when that is denser.
abbrev first_of : List ℕ → Option ℕ
first_of [] = none
first_of (x ∷ xs) = some x

abbrev turned : List ℕ → List ℕ
turned [] = []
turned (x ∷ xs) = xs ++ (x ∷ [])

abbrev simple : Flow
simple = record {
  Density = ℕ;
  zero_density = 0;
  Field = ℕ;
  Algorithm = List ℕ;
  alternate_targets = λ ts. ts;
  minimal_density = λ ts. ts;
  avoid_congestion = λ t. t ∷ [];
  next_of = λ ts. (first_of ts, turned ts);
  next_by = λ ds ts. (first_of ts, ts);
  next_avoiding = λ short long ts. (if leb short long then none else first_of ts, ts);
  Mapper = ℕ;
  Shape = ℕ;
  polygon = λ c. c;
  new_mapper = λ dim size areas obs. length areas;
  update_density = λ r m. r;
  get_density_in_area = λ m. (m + 2) ∷ m ∷ 1 ∷ [];
}

abbrev at_time : ℕ → Route.Input simple
at_time t = record {
  sim_time = t;
  value = λ name. (0, 0, if list_beq name (decimal 101) then 5 else 2);
}

abbrev start : Controller → Route.Local simple
start k = Route.init simple k

-- AvoidShort at 10 seconds: the short route is denser, so target 31 is sent.
handle_sim_step_lem_example :
    let t = chosen {F = simple} avoid_short (at_time 100) (start avoid_short) (31 ∷ []) in
    Route.handle_sim_step {F = simple} avoid_short (at_time 100) (start avoid_short)
    ≡ (ok tt, t, reads ++ (sends {F = simple} avoid_short t 100 ++ records {F = simple} t 100))
unfolding Route.init
handle_sim_step_lem_example =
    handle_sim_step_lem {F = simple} avoid_short (at_time 100) (start avoid_short) (31 ∷ []) refl

two_steps : List (Route.Input simple)
two_steps = at_time 100 ∷ at_time 120 ∷ []

avoid_short-only_31_example :
    All SendsOnly31 (session {F = simple} avoid_short (text "out") two_steps (start avoid_short)).2
avoid_short-only_31_example = avoid_short-only_31 {F = simple} (text "out") two_steps

session-IsRegistered_example :
    IsRegistered [] (session {F = simple} closed_loop (text "out") two_steps (start closed_loop)).2
session-IsRegistered_example =
    session-IsRegistered {F = simple} closed_loop (text "out") two_steps (start closed_loop)

session_goes_on_example :
    ((session {F = simple} closed_loop (text "out") two_steps (start closed_loop)).0 ≡ ok tt)
    × (forwards (session {F = simple} closed_loop (text "out") two_steps (start closed_loop)).2
        ≡ length two_steps)
session_goes_on_example = session_goes_on {F = simple} closed_loop (text "out") two_steps (λ e. cc)

session-IsApart_example :
    IsApart 100
      (windows (session {F = simple} closed_loop (text "out") two_steps (start closed_loop)).2)
unfolding two_steps
session-IsApart_example =
    session-IsApart {F = simple} closed_loop (text "out") two_steps 100
      (omega arith, (omega arith, tt))

-- The two windows of that session.
windows_of_session :
    windows (session {F = simple} closed_loop (text "out") two_steps (start closed_loop)).2
    ≡ (100, 116) ∷ (120, 136) ∷ []
unfolding session two_steps Route.init Route.handle_init Route.handle_sim_step
    Route.get_stimulus_info Route.write_data
windows_of_session = refl

abbrev map_at : ℕ → Munich.Input simple
map_at t = record {
  sim_time = t;
  density_map = (10, 2, some 4);
  obstacles = (0, 7) ∷ [];
  area_shape = λ name. 0;
}

session-Counts_example :
    Counts {F = simple} 7 0 1 1
      (munich_session {F = simple} (text "out") (map_at 100 ∷ []) (Munich.init simple (some 7)))
session-Counts_example = session-Counts {F = simple} (λ m. refl) (text "out") (map_at 100 ∷ []) 7

run-plan_example :
    each
      (PingPong.handle_sim_step simple)
      (record { sim_time = 40; id_list = 1 ∷ 5 ∷ [] }
        ∷ record { sim_time = 80; id_list = 5 ∷ [] }
        ∷ [])
      (2 ∷ 3 ∷ [])
    ≡ (
      ok tt,
      2 ∷ 3 ∷ [],
      PingPong.plan simple (2 ∷ 3 ∷ []) (
          record { sim_time = 40; id_list = 1 ∷ 5 ∷ [] }
          ∷ record { sim_time = 80; id_list = 5 ∷ [] }
          ∷ []),
    )
run-plan_example =
    PingPong.run-plan simple
      (record { sim_time = 40; id_list = 1 ∷ 5 ∷ [] }
        ∷ record { sim_time = 80; id_list = 5 ∷ [] }
        ∷ [])
      (2 ∷ 3 ∷ [])
