-- ===== src/Control/Munich.antt =====
-- mucFreiheit_route_choice_app/control.py: `AvoidShort`, which measures on a map of densities that a
-- node of the simulation sends. An attribute that only `handle_init`, a step or the base class sets is
-- an `Option`; what it prints is left out.
pub mod Steps
pub mod Sessions
use crownet.Prelude.{
  ℕ, suc, ◌+◌, Option, none, some, List, [], ◌∷◌, ◌++◌, map, Text, text, decimal, length, get_elem?,
  attribute_error, index_error,
}
use crownet.Control.{
  Target, named, target, of_answer, shown, rectangle, Stimulus, stimulus, densities, path_choice,
  register_processor, init_control, get_density_map, get_obstacles, get_measurement_area_shape,
  send_control, update_sim_time, write, finish, forward_time, M, ◌>>=◌, ◌>>◌, return, raising, call,
  reading, changing, indexed, Flow,
}

pub record Watch (F : Flow) : Type 0 where
  pub density_over_time : List (List F.Density)
  pub control_algorithm : F.Algorithm
  pub density_mapper : Option (Option F.Mapper)
  pub detour_app : Option Text
  pub density_app : Option Text
  pub current_target : Option Target
  pub command_id : Option ℕ

-- One step as the simulator sees it: the map that the node sends (its dimensions, its cell size, and
-- the densities or `None`), and the shapes of obstacles and areas.
pub record Input (F : Flow) : Type 0 where
  pub sim_time : ℕ
  pub density_map : F.Field × F.Field × Option F.Field
  pub obstacles : List (F.Field × F.Field)
  pub area_shape : Text → F.Field

-- `__init__`; the base class may set `commandID`.
unfoldable pub init : (F : Flow) → Option ℕ → Watch F
init F command = record {
  density_over_time = [];
  control_algorithm = F.avoid_congestion 31;
  density_mapper = none;
  detour_app = none;
  density_app = none;
  current_target = none;
  command_id = command;
}

unfoldable pub get_stimulus_info : Target → ℕ → Stimulus
get_stimulus_info t sim_time = record {
  areas = rectangle 582 711 200 150;
  stimuli = text "use target " ++ shown t;
  timeframe = some (sim_time, sim_time + 100000);
}

-- The last item of a list: `xs[-1]`.
abbrev pub last {ℓ} : {A : Type ℓ} → List A → Option A
last [] = none
last (x ∷ []) = some x
last (x ∷ y ∷ xs) = last (y ∷ xs)

module _ {F : Flow} where
  unfoldable pub handle_init : Text → M F.Density (Watch F) (Unit {0})
  handle_init output_dir = do
    changing λ w. record w {
      density_mapper = some none;
      detour_app = some (text "World.misc[0].app[0]");
      density_app = some (text "World.misc[0].app[1].app");
    }
    call init_control
    call (register_processor (text "path_choice") (output_dir ++ text "/path_choice.txt") [])
    call (
        register_processor (text "densities_mapped") (output_dir ++ text "/densities_mapped.txt")
          (text "meas_area_1" ∷ text "meas_area_2" ∷ text "meas_area_3" ∷ []))

  unfoldable pub get_obstacles_as_polygons : Input F → M F.Density (Watch F) (List F.Shape)
  get_obstacles_as_polygons i = do call get_obstacles; return (map (λ o. F.polygon o.1) i.obstacles)

  -- A dict with a key for each number.
  abbrev pub get_measurement_areas : Input F → List ℕ → M F.Density (Watch F) (List (ℕ × F.Shape))
  get_measurement_areas i [] = return []
  get_measurement_areas i (id ∷ ids) = do
    call (get_measurement_area_shape (decimal id))
    areas ← get_measurement_areas i ids
    return ((id, F.polygon (i.area_shape (decimal id))) ∷ areas)

  abbrev set_mapper : F.Mapper → M F.Density (Watch F) (Unit {0})
  set_mapper m = changing (λ w. record w { density_mapper = some (some m) })

  -- The mapper that is there, or a new one.
  abbrev ensure_mapper : Input F → Option F.Mapper → M F.Density (Watch F) F.Mapper
  ensure_mapper i (some m) = return m
  ensure_mapper i none = do
    obs ← get_obstacles_as_polygons i
    areas ← get_measurement_areas i (1 ∷ 2 ∷ 3 ∷ [])
    set_mapper (F.new_mapper i.density_map.0 i.density_map.1 areas obs)
    return (F.new_mapper i.density_map.0 i.density_map.1 areas obs)

  abbrev update_with : Option F.Field → F.Mapper → M F.Density (Watch F) (Unit {0})
  update_with none m = return tt
  update_with (some result) m = set_mapper (F.update_density result m)

  unfoldable pub update_density_map : Input F → M F.Density (Watch F) (Unit {0})
  unfolding get_obstacles_as_polygons
  update_density_map i = do
    set ← reading (λ w. w.density_mapper)
    kept ← indexed set attribute_error
    m ← ensure_mapper i kept
    update_with i.density_map.2 m

  unfoldable pub measure_state : Input F → M F.Density (Watch F) (Unit {0})
  unfolding update_density_map
  measure_state i = do
    set ← reading (λ w. w.density_app)
    app ← indexed set attribute_error
    call (get_density_map app)
    update_density_map i
    mapper ← reading (λ w. w.density_mapper)
    kept ← indexed mapper attribute_error
    m ← indexed kept attribute_error
    call (write (text "densities_mapped") (densities (F.get_density_in_area m)))
    changing
        λ w. record w { density_over_time = w.density_over_time ++ (F.get_density_in_area m ∷ []) }

  -- `None` is written as a skipped opportunity; a target is written and then sent.
  abbrev recommend : Option ℕ → ℕ → M F.Density (Watch F) (Unit {0})
  recommend none t = call (write (text "path_choice") (path_choice (named (text "skipped"))))
  recommend (some n) t = do
    call (write (text "path_choice") (path_choice (target n)))
    set ← reading (λ w. w.current_target)
    choice ← indexed set attribute_error
    app ← reading (λ w. w.detour_app)
    node ← indexed app attribute_error
    call (send_control (stimulus (get_stimulus_info choice t)) (some node))

  unfoldable pub send_recommendation_if_necessary : ℕ → M F.Density (Watch F) (Unit {0})
  send_recommendation_if_necessary t = do
    history ← reading (λ w. w.density_over_time)
    measured ← indexed (last history) index_error
    short ← indexed (get_elem? measured 0) index_error
    long ← indexed (get_elem? measured 2) index_error
    algorithm ← reading (λ w. w.control_algorithm)
    changing λ w. record w {
      control_algorithm = (F.next_avoiding short long algorithm).1;
      current_target = some (of_answer (F.next_avoiding short long algorithm).0);
    }
    recommend (F.next_avoiding short long algorithm).0 t

  unfoldable pub handle_sim_step : Input F → M F.Density (Watch F) (Unit {0})
  handle_sim_step i = do
    call (update_sim_time i.sim_time)
    measure_state i
    send_recommendation_if_necessary i.sim_time
    command ← reading (λ w. w.command_id)
    old ← indexed command attribute_error
    changing (λ w. record w { command_id = some (old + 1) })
    call forward_time

  unfoldable pub write_data : M F.Density (Watch F) (Unit {0})
  write_data = call finish
