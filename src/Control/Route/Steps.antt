-- ===== src/Control/Route/Steps.antt =====
-- control.py of route_choice_app: one step of each controller, as a whole.
use crownet.Prelude.{
  ℕ, ◌≡◌, refl, Option, none, some, List, [], ◌∷◌, ◌++◌, if◌then◌else◌, text, decimal, Result, ok,
  err, attribute_error, arith,
}
use crownet.Control.{
  Target, Call, of_answer, stimulus, densities, path_choice, get_data_processor_value, send_control,
  update_sim_time, write, forward_time, Flow,
}
use crownet.Control.Route.{
  Controller, local_controller, no_controller, open_loop, closed_loop, avoid_short, Local, Input,
  or_none, is_target, get_stimulus_info, handle_sim_step,
}

abbrev pub answered : Controller → Option ℕ → Target
answered avoid_short o = or_none o
answered _ o = of_answer o

abbrev pub reads : {D : Type 0} → List (Call D)
reads =
    get_data_processor_value (decimal 101)
    ∷ get_data_processor_value (decimal 102)
    ∷ get_data_processor_value (decimal 103)
    ∷ []

module _ {F : Flow} where
  -- The densities of the short, the medium and the long route.
  abbrev pub measured : Input F → List F.Density
  measured i =
      (i.value (decimal 101)).2 ∷ (i.value (decimal 102)).2 ∷ (i.value (decimal 103)).2 ∷ []

  -- What a controller asks of its algorithm, given the densities that it has just measured.
  abbrev pub answer : Controller → Input F → F.Algorithm → Option ℕ × F.Algorithm
  answer closed_loop i a = F.next_by (measured i) a
  answer avoid_short i a = F.next_avoiding (i.value (decimal 101)).2 (i.value (decimal 103)).2 a
  answer _ i a = F.next_of a

  -- The controller after a step that asked its algorithm.
  abbrev pub chosen : Controller → Input F → Local F → F.Algorithm → Local F
  chosen no_controller i s a = record s { densities_last = measured i }
  chosen k i s a = record s {
    control_algorithm = some (answer k i a).1;
    current_target = answered k (answer k i a).0;
    densities_last = measured i;
  }

  -- The recommendation that a controller sends for its target.
  abbrev pub sends : Controller → Local F → ℕ → List (Call F.Density)
  sends no_controller s t = []
  sends avoid_short s t =
      if is_target s.current_target s.alternative_route_id
      then send_control (stimulus (get_stimulus_info s.current_target t)) none ∷ []
      else []
  sends _ s t = send_control (stimulus (get_stimulus_info s.current_target t)) none ∷ []

  abbrev pub records : Local F → ℕ → List (Call F.Density)
  records s t =
      update_sim_time t
      ∷ write (text "densities_received") (densities s.densities_last)
      ∷ write (text "path_choice") (path_choice s.current_target)
      ∷ forward_time
      ∷ []

  -- The densities are new also when there is no algorithm to ask.
  abbrev pub unset : Input F → Local F → Local F
  unset i s = record s { densities_last = measured i }

  abbrev pub without_algorithm :
      Controller → Input F → Local F → Result (Unit {0}) × Local F × List (Call F.Density)
  without_algorithm no_controller i s = (ok tt, unset i s, reads ++ records (unset i s) i.sim_time)
  without_algorithm _ i s = (err attribute_error, unset i s, reads)

  -- A step of a controller that has an algorithm returns. It reads the three processors, asks the
  -- algorithm with the densities just read (the closed loop with all of them, AvoidShort with those
  -- of the short and the long route; NoController asks nothing), sends the recommendation that its
  -- class sends for the new target, then writes the same densities and the same target under the
  -- step's time, and tells the time stepper to go on, in this order.
  pub handle_sim_step_lem :
      (k : Controller) (i : Input F) (s : Local F) (a : F.Algorithm)
      → s.control_algorithm ≡ some a
      → let t = chosen k i s a in
        handle_sim_step k i s ≡ (ok tt, t, reads ++ (sends k t i.sim_time ++ records t i.sim_time))
  unfolding handle_sim_step
  handle_sim_step_lem local_controller i s a h = ground arith
  handle_sim_step_lem no_controller i s a h = refl
  handle_sim_step_lem open_loop i s a h = ground arith
  handle_sim_step_lem closed_loop i s a h = ground arith
  handle_sim_step_lem avoid_short i s a h = ground arith

  -- A step of a controller without an algorithm raises AttributeError after its three reads, before it
  -- sends, writes or lets the time go on, except for NoController, whose step returns; AvoidShort too
  -- raises it, since three densities are there for its two indices.
  pub handle_sim_step_unset :
      (k : Controller) (i : Input F) (s : Local F)
      → s.control_algorithm ≡ none
      → handle_sim_step k i s ≡ without_algorithm k i s
  unfolding handle_sim_step
  handle_sim_step_unset local_controller i s h = ground arith
  handle_sim_step_unset no_controller i s h = refl
  handle_sim_step_unset open_loop i s h = ground arith
  handle_sim_step_unset closed_loop i s h = ground arith
  handle_sim_step_unset avoid_short i s h = ground arith
