-- ===== src/Control/Route.antt =====
-- route_choice_app/control.py: the controllers that recommend one of three routes. A constructor for
-- each class; a method that a class overrides branches on it.
pub mod Steps
pub mod Sessions
pub mod Progress
pub mod Recorded
use crownet.Prelude.{
  ℕ, ◌+◌, ◌==◌, Bool, true, false, Option, none, some, List, [], ◌∷◌, ◌++◌, if◌then◌else◌, Text,
  text, decimal, get_elem?, attribute_error, index_error,
}
use crownet.Control.{
  Target, named, target, nothing, of_answer, shown, rectangle, Stimulus, stimulus, densities,
  path_choice, register_processor, get_data_processor_value, send_control, update_sim_time, write,
  finish, forward_time, M, ◌>>=◌, ◌>>◌, return, raising, call, reading, changing, indexed, Flow,
}

pub data Controller : Type 0 where
  local_controller no_controller open_loop closed_loop avoid_short : Controller

pub record Local (F : Flow) : Type 0 where
  pub control_algorithm : Option F.Algorithm
  pub current_target : Target
  pub densities_last : List F.Density
  pub alternative_route_id : ℕ

-- One step as the simulator sees it: its time, and what its processors answer.
pub record Input (F : Flow) : Type 0 where
  pub sim_time : ℕ
  pub value : Text → F.Field × F.Field × F.Density

-- `super().__init__` of each class. `LocalController()` has no algorithm.
abbrev algorithm_of : (F : Flow) → Controller → Option F.Algorithm
algorithm_of F local_controller = none
algorithm_of F no_controller = none
algorithm_of F open_loop = some (F.alternate_targets (11 ∷ 21 ∷ 31 ∷ []))
algorithm_of F closed_loop = some (F.minimal_density (11 ∷ 21 ∷ 31 ∷ []))
algorithm_of F avoid_short = some (F.avoid_congestion 31)

unfoldable pub init : (F : Flow) → Controller → Local F
init F k = record {
  control_algorithm = algorithm_of F k;
  current_target = named (text "none");
  densities_last = F.zero_density ∷ F.zero_density ∷ F.zero_density ∷ [];
  alternative_route_id = 31;
}

-- `AvoidShort` names the missing recommendation.
abbrev or_none : Option ℕ → Target
or_none none = named (text "none")
or_none (some n) = target n

-- Valid from the step's time on for 1.6 seconds.
unfoldable pub get_stimulus_info : Target → ℕ → Stimulus
get_stimulus_info t sim_time = record {
  areas = rectangle 0 0 250 250;
  stimuli = text "use target " ++ shown t;
  timeframe = some (sim_time, sim_time + 16);
}

-- `current_target == n`, between a number and whatever the target is.
abbrev pub is_target : Target → ℕ → Bool
is_target (named s) n = false
is_target (target m) n = m == n
is_target nothing n = false

module _ {F : Flow} where
  -- The loop over the numbers of the processors.
  abbrev read_values : Input F → List ℕ → M F.Density (Local F) (List F.Density)
  read_values i [] = return []
  read_values i (a ∷ rest) = do
    call (get_data_processor_value (decimal a))
    read ← read_values i rest
    return ((i.value (decimal a)).2 ∷ read)

  unfoldable pub measure_state : Input F → M F.Density (Local F) (Unit {0})
  measure_state i = do
    read ← read_values i (101 ∷ 102 ∷ 103 ∷ [])
    changing (λ s. record s { densities_last = read })

  unfoldable pub write_dataprocessor_data : ℕ → M F.Density (Local F) (Unit {0})
  write_dataprocessor_data t = do
    call (update_sim_time t)
    read ← reading (λ s. s.densities_last)
    call (write (text "densities_received") (densities read))
    choice ← reading (λ s. s.current_target)
    call (write (text "path_choice") (path_choice choice))

  -- `get_next_target` on the controller's algorithm, which is `None` by default.
  abbrev next_target : (F.Algorithm → Option ℕ × F.Algorithm) → M F.Density (Local F) (Option ℕ)
  next_target ask = do
    found ← reading (λ s. s.control_algorithm)
    algorithm ← indexed found attribute_error
    changing (λ s. record s { control_algorithm = some (ask algorithm).1 })
    return (ask algorithm).0

  abbrev set_target : Target → M F.Density (Local F) (Unit {0})
  set_target t = changing (λ s. record s { current_target = t })

  unfoldable pub compute_next_corridor_choice : Controller → M F.Density (Local F) (Unit {0})
  compute_next_corridor_choice local_controller = do
    answer ← next_target F.next_of
    set_target (of_answer answer)
  compute_next_corridor_choice no_controller = return tt
  compute_next_corridor_choice open_loop = do
    answer ← next_target F.next_of
    set_target (of_answer answer)
  compute_next_corridor_choice closed_loop = do
    read ← reading (λ s. s.densities_last)
    answer ← next_target (F.next_by read)
    set_target (of_answer answer)
  compute_next_corridor_choice avoid_short = do
    read ← reading (λ s. s.densities_last)
    short ← indexed (get_elem? read 0) index_error
    long ← indexed (get_elem? read 2) index_error
    answer ← next_target (F.next_avoiding short long)
    set_target (or_none answer)

  -- `LocalController.apply_redirection_measure`
  abbrev send_recommendation : ℕ → M F.Density (Local F) (Unit {0})
  send_recommendation t = do
    choice ← reading (λ s. s.current_target)
    call (send_control (stimulus (get_stimulus_info choice t)) none)

  unfoldable pub apply_redirection_measure : Controller → ℕ → M F.Density (Local F) (Unit {0})
  apply_redirection_measure local_controller t = send_recommendation t
  apply_redirection_measure no_controller t = return tt
  apply_redirection_measure open_loop t = send_recommendation t
  apply_redirection_measure closed_loop t = send_recommendation t
  apply_redirection_measure avoid_short t = do
    choice ← reading (λ s. s.current_target)
    id ← reading (λ s. s.alternative_route_id)
    if is_target choice id then send_recommendation t else return tt

  unfoldable pub handle_sim_step : Controller → Input F → M F.Density (Local F) (Unit {0})
  unfolding measure_state compute_next_corridor_choice apply_redirection_measure
      write_dataprocessor_data
  handle_sim_step k i = do
    measure_state i
    compute_next_corridor_choice k
    apply_redirection_measure k i.sim_time
    write_dataprocessor_data i.sim_time
    call forward_time

  -- `os.path.join(self.output_dir, ...)`, of a directory written without its last slash.
  unfoldable pub handle_init : Text → M F.Density (Local F) (Unit {0})
  handle_init output_dir = do
    call (
        register_processor (text "densities_received")
          (output_dir ++ text "/densities_received.txt")
          (text "shortRoute" ∷ text "mediumRoute" ∷ text "longRoute" ∷ []))
    call (register_processor (text "path_choice") (output_dir ++ text "/path_choice.txt") [])

  unfoldable pub write_data : M F.Density (Local F) (Unit {0})
  write_data = call finish
