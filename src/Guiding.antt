-- ===== src/Guiding.antt =====
-- guiding_crowds_forward_propagation/run_simulations.py: the runs of each guiding strategy in a docker
-- network of their own, and the script around them. docker, suqc, pandas and numpy are parameters; the
-- plots of the post-processing and what is printed are left out.
pub mod Networks
pub mod Exits
pub mod Tests
use crownet.Prelude.{
  ℕ, zero, suc, ◌==◌, Bool, true, false, ◌&&◌, Option, none, some, List, [], ◌∷◌, ◌++◌, map, take,
  if◌then◌else◌, Text, text, list_eq, list_beq, nat_eq, Result, ok, err, key_error, value_error,
  file_not_found_error, or_raise,
}
use crownet.States.{M, ◌>>=◌, ◌>>◌, return, raising, lifted, reading, changing}
use crownet.SumoRuns.{join_path}

-- A variation: the probabilities of the three routes for each recommendation, how many are spawned, and
-- the compliance.
pub record Sample (F : Type 0) : Type 0 where
  pub short : List F
  pub medium : List F
  pub long : List F
  pub event_element_count : ℕ
  pub compliance : F

pub record Host : Type 1 where
  pub F : Type 0
  pub zero_f : F
  pub one : F
  pub sub : F → F → F
  -- `round(x, 4)`, and `np.linspace(0, 1.0, n)`
  pub round : F → F
  pub linspace : ℕ → List F
  pub new_seed_variation : List (Sample F) → List (Sample F)
  pub crownet_home : Option Text
  -- The six random signs of the network of a controller.
  pub suffix : Text → Text
  -- Whether docker removes a network with an id.
  pub removable : Text → Bool
  pub Table : Type 0
  -- `setup.run(number_processes)` for a controller.
  pub simulate :
      Text → Text → List Text → List (Sample F) → ℕ → Result (Table × List (Text × Table))
  -- `s.replace('.txt', '.csv')`
  pub with_csv : Text → Text
  pub return_codes : Table → List ℕ
  pub post_processing : Text → Result (Unit {0})
  -- `int(s)`; no number of rates, agents or processes is negative.
  pub int : Text → Option ℕ
  pub script_dir : Text

-- The arguments of the script: the directory, how many compliance rates, agents and processes.
pub record Arguments : Type 0 where
  pub simulation_dir : Text
  pub number_compliance_rates : ℕ
  pub spawn_number : ℕ
  pub number_processes : ℕ

-- The networks of docker, and the tables that have been written.
pub record World (Table : Type 0) : Type 0 where
  pub networks : List Text
  pub files : List (Text × Table)

pub data Exit : Type 0 where
  succeeded failed : Exit

abbrev pub without : Text → List Text → List Text
without id [] = []
without id (n ∷ networks) =
    let rest = without id networks in if list_beq id n then networks else n ∷ rest

abbrev pub all_zero : List ℕ → Bool
all_zero [] = true
all_zero (c ∷ codes) = c == 0 && all_zero codes

abbrev pub exit : List Text → Exit
exit [] = succeeded
exit (f ∷ failures) = failed

abbrev pub qois : List Text
qois =
    text "densities.txt"
    ∷ text "fundamentalDiagramm.txt"
    ∷ text "startTime.txt"
    ∷ text "targetReachTime.txt"
    ∷ text "path_choice.txt"
    ∷ []

abbrev pub controllers : List Text
controllers = text "NoController" ∷ text "AvoidShort" ∷ text "ClosedLoop" ∷ text "OpenLoop" ∷ []

module _ (H : Host) where
  open H use {F, Table}

  -- `client.networks.get(network_id=network_id).remove()`, whatever it raises.
  abbrev pub try_remove : Text → M (World Table) (Unit {0})
  try_remove id =
      changing
        λ w. record w { networks = if H.removable id then without id w.networks else w.networks }

  abbrev pub create : Text → M (World Table) (Unit {0})
  create id = changing λ w. record w { networks = w.networks ++ (id ∷ []) }

  abbrev pub to_csv : Text → Table → M (World Table) (Unit {0})
  to_csv path table = changing λ w. record w { files = (path, table) ∷ w.files }

  abbrev pub parameters_path : Text → Text → Text
  parameters_path simulation_dir controller =
      join_path simulation_dir (controller ++ text "_parameters.csv")

  abbrev pub export : Text → Text → List (Text × Table) → M (World Table) (Unit {0})
  export simulation_dir controller [] = return tt
  export simulation_dir controller ((qoi, vals) ∷ tables) =
      to_csv (join_path simulation_dir (controller ++ (text "_" ++ H.with_csv qoi))) vals
      >> export simulation_dir controller tables

  abbrev pub network_id : Text → Text
  network_id controller = text "guiding_" ++ (controller ++ (text "_" ++ H.suffix controller))

  -- A missing variable raises KeyError before it is compared with `None`.
  unfoldable pub run_controller :
      Text → List Text → List (Sample F) → Text → ℕ → M (World Table) (Unit {0})
  run_controller controller qoi par_var simulation_dir number_processes =
      lifted (or_raise H.crownet_home key_error) >>= λ home.
      try_remove (network_id controller)
      >> create (network_id controller)
      >> lifted (H.simulate home controller qoi par_var number_processes)
      >>= λ found.
          to_csv (parameters_path simulation_dir controller) found.0
          >> export simulation_dir controller found.1
          >> try_remove (network_id controller)

  unfoldable pub sample : ℕ → F → Sample F
  sample spawn_number p = record {
    short = H.one ∷ H.zero_f ∷ H.zero_f ∷ [];
    medium = H.round (H.sub H.one p) ∷ H.round p ∷ H.zero_f ∷ [];
    long = H.round (H.sub H.one p) ∷ H.zero_f ∷ H.round p ∷ [];
    event_element_count = spawn_number;
    compliance = H.round p;
  }

  -- The words after the name of the script.
  unfoldable pub arguments : List Text → Result Arguments
  arguments [] = ok (record {
    simulation_dir = join_path H.script_dir (text "guiding_crowds_forward_propagation_sims");
    number_compliance_rates = 41;
    spawn_number = 8;
    number_processes = 10;
  })
  arguments (dir ∷ rates ∷ spawn ∷ processes ∷ []) = elim (H.int rates) [
    | none ↦ err value_error
    | some r ↦ elim (H.int spawn) [
      | none ↦ err value_error
      | some s ↦ elim (H.int processes) [
        | none ↦ err value_error
        | some n ↦ ok (record {
          simulation_dir = dir;
          number_compliance_rates = r;
          spawn_number = s;
          number_processes = n;
        })
      ]
    ]
  ]
  arguments (a ∷ []) = err value_error
  arguments (a ∷ b ∷ []) = err value_error
  arguments (a ∷ b ∷ c ∷ []) = err value_error
  arguments (a ∷ b ∷ c ∷ d ∷ e ∷ rest) = err value_error

  abbrev pub table_at : Text → List (Text × Table) → Result Table
  table_at path [] = err file_not_found_error
  table_at path ((name, table) ∷ files) =
      let rest = table_at path files in if list_beq path name then ok table else rest

  -- The loop that collects what has failed. `info[info[column]]` looks for columns that are called like
  -- the return codes, and raises KeyError.
  unfoldable pub check_failed : Text → List Text → List Text → M (World Table) (List Text)
  check_failed simulation_dir [] failures = return failures
  check_failed simulation_dir (controller ∷ rest) failures =
      (λ w. (table_at (parameters_path simulation_dir controller) w.files, w)) >>= λ info.
      if all_zero (H.return_codes info)
      then check_failed simulation_dir rest failures
      else (return (failures ++ (join_path simulation_dir controller ∷ [])) >>= λ more.
          raising key_error)

  abbrev pub run_all : List (Sample F) → Text → ℕ → M (World Table) (Unit {0})
  run_all par_var simulation_dir number_processes =
      run_controller (text "NoController") qois (take 1 par_var) simulation_dir number_processes
      >> run_controller (text "AvoidShort") qois par_var simulation_dir number_processes
      >> run_controller (text "ClosedLoop") qois par_var simulation_dir number_processes
      >> run_controller (text "OpenLoop") qois par_var simulation_dir number_processes

  -- The simulation directory is removed and made again, so that no table is left there.
  unfoldable pub run_simulation_study : Arguments → M (World Table) (Unit {0})
  unfolding sample run_controller
  run_simulation_study args =
      changing (λ w. record w { files = [] })
      >> run_all
          (H.new_seed_variation
            (map (sample args.spawn_number) (H.linspace args.number_compliance_rates)))
          args.simulation_dir args.number_processes

  abbrev pub judge : Arguments → M (World Table) Exit
  judge args = check_failed args.simulation_dir controllers [] >>= λ failures.
      lifted (H.post_processing args.simulation_dir) >> return (exit failures)

  -- The script.
  unfoldable pub script : List Text → M (World Table) Exit
  unfolding arguments run_simulation_study check_failed
  script argv = lifted (arguments argv) >>= λ args. run_simulation_study args >> judge args
