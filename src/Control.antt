-- ===== src/Control.antt =====
-- What the crowd controllers of the simulations share: the calls that they make on the simulator, the
-- data processors and the time stepper of `flowcontrol`, and methods as functions that return their
-- result, the changed object and the calls made. Times are in tenths of a second. What the library's
-- algorithms and density map compute is a parameter.
pub mod Logs
pub mod Route
pub mod Munich
pub mod TestSim
pub mod PingPong
pub mod Tests
use crownet.Prelude.{
  ℕ, Bool, true, false, Option, none, some, List, [], ◌∷◌, ◌++◌, Text, text, decimal, Result, ok,
  err, Exception,
}

-- `current_target`: a text, the number of a target, or `None`.
pub data Target : Type 0 where
  named : Text → Target
  target : ℕ → Target
  nothing : Target

-- What `get_next_target` returned.
abbrev pub of_answer : Option ℕ → Target
of_answer none = nothing
of_answer (some n) = target n

-- The target in an f-string.
abbrev pub shown : Target → Text
shown (named s) = s
shown (target n) = decimal n
shown nothing = text "None"

-- `Rectangle(x, y, width, height)`, in tenths of a metre, and `Circle(radius)`, in metres.
pub data Area : Type 0 where
  rectangle : ℕ → ℕ → ℕ → ℕ → Area
  circle : ℕ → Area

-- `StimulusInfo`
pub record Stimulus : Type 0 where
  pub areas : Area
  pub stimuli : Text
  pub timeframe : Option (ℕ × ℕ)

-- The dict that `control_2.py` sends as JSON.
pub record Action : Type 0 where
  pub time : ℕ
  pub radius : ℕ
  pub target_ids : List ℕ
  pub command_id : ℕ
  pub stimulus_id : ℕ

pub data Message : Type 0 where
  stimulus : Stimulus → Message
  action : Text → Action → Message

-- What a data processor is given to write.
pub data Written (D : Type 0) : Type 0 where
  densities : List D → Written D
  path_choice : Target → Written D

-- The calls that leave a controller.
pub data Call (D : Type 0) : Type 0 where
  register_processor : Text → Text → List Text → Call D
  init_control : Call D
  get_data_processor_value : Text → Call D
  get_density_map : Text → Call D
  get_obstacles : Call D
  get_measurement_area_shape : Text → Call D
  get_id_list : Call D
  set_target_list : Text → List Text → Call D
  send_control : Message → Option Text → Call D
  update_sim_time : ℕ → Call D
  write : Text → Written D → Call D
  finish : Call D
  next_call_at : ℕ → Call D
  forward_time : Call D

-- A method: its result, the object after it, and the calls made on the way, also when it raises.
abbrev pub M : Type 0 → Type 0 → Type 0 → Type 0
M D S A = S → Result A × S × List (Call D)

abbrev pub after :
    {D S A B : Type 0} → Result A × S × List (Call D) → (A → M D S B) → Result B × S × List (Call D)
after (ok a, s, calls) next = ((next a s).0, (next a s).1, calls ++ (next a s).2)
after (err raised, s, calls) next = (err raised, s, calls)

infixl 5 ◌>>=◌ ◌>>◌
abbrev pub ◌>>=◌ : {D S A B : Type 0} → M D S A → (A → M D S B) → M D S B
◌>>=◌ m next s = after (m s) next

abbrev pub ◌>>◌ : {D S A B : Type 0} → M D S A → M D S B → M D S B
m >> next = m >>= λ _. next

abbrev pub return : {D S A : Type 0} → A → M D S A
return a s = (ok a, s, [])

abbrev pub raising : {D S A : Type 0} → Exception → M D S A
raising raised s = (err raised, s, [])

abbrev pub call : {D S : Type 0} → Call D → M D S (Unit {0})
call c s = (ok tt, s, c ∷ [])

-- Read a part of the object, and change it.
abbrev pub reading : {D S A : Type 0} → (S → A) → M D S A
reading f s = (ok (f s), s, [])

abbrev pub changing : {D S : Type 0} → (S → S) → M D S (Unit {0})
changing f s = (ok tt, f s, [])

abbrev pub indexed : {D S A : Type 0} → Option A → Exception → M D S A
indexed none raised s = (err raised, s, [])
indexed (some a) raised s = (ok a, s, [])

-- A method for each item, until one raises.
abbrev pub each : {D S A : Type 0} → (A → M D S (Unit {0})) → List A → M D S (Unit {0})
each f [] = return tt
each f (x ∷ xs) = f x >> each f xs

-- `flowcontrol`'s algorithms, as they answer, and its map of densities.
pub record Flow : Type 1 where
  pub Density : Type 0
  pub zero_density : Density
  -- The other values that a data processor of the simulator returns.
  pub Field : Type 0
  pub Algorithm : Type 0
  -- `AlternateTargetAlgorithm`, `MinimalDensityAlgorithm` and `AvoidCongestion`
  pub alternate_targets : List ℕ → Algorithm
  pub minimal_density : List ℕ → Algorithm
  pub avoid_congestion : ℕ → Algorithm
  -- `get_next_target`, by its arguments: none, all densities, or those of two routes.
  pub next_of : Algorithm → Option ℕ × Algorithm
  pub next_by : List Density → Algorithm → Option ℕ × Algorithm
  pub next_avoiding : Density → Density → Algorithm → Option ℕ × Algorithm
  -- `DensityMapper`, of the map's dimensions, its cell size, obstacles and areas.
  pub Mapper : Type 0
  pub Shape : Type 0
  -- `Polygon(np.array(corners))`
  pub polygon : Field → Shape
  pub new_mapper : Field → Field → List (ℕ × Shape) → List Shape → Mapper
  -- `update_density`, and the values of `get_density_in_area`.
  pub update_density : Field → Mapper → Mapper
  pub get_density_in_area : Mapper → List Density
