-- ===== src/Study/Memory.antt =====
-- study.py: how many simulations run at a time, by the memory that is free.
use crownet.Prelude.{
  ℕ, zero, suc, ◌+◌, ◌*◌, ◌/◌, ltb, Bool, true, false, List, [], ◌∷◌, ◌++◌, if◌then◌else◌, Text,
  text,
}
use crownet.SumoRuns.{join_path}

-- `MobilitySimulatorType`
pub data Mobility : Type 0 where
  omnet vadere sumo : Mobility

-- What is varied: the simulated seconds and one parameter with its value.
pub record Variation : Type 0 where
  pub sim_time_limit : ℕ
  pub key : Text
  pub value : Text

pub data Event : Type 0 where
  made_dir : Text → Event
  slept : Event
  -- `setup.run(nr_parallel)` for a configuration.
  ran : Text → Mobility → List Variation → ℕ → Event
  analysed : Text → Event
  asked : Text → Event
  removed : Text → Event

-- The host: the directories that exist before, the bytes of memory that are free or cached at each
-- reading, and the variations with new seeds.
pub record Host : Type 0 where
  pub abspath : Text → Text
  pub dir_exists : Text → Bool
  pub memory : ℕ → ℕ
  pub new_seed_variation : List Variation → List Variation
  -- What is typed at the prompt, in lower case.
  pub confirmation : Text

-- How often the memory has been read, and what has happened.
pub record Machine : Type 0 where
  pub readings : ℕ
  pub events : List Event

module _ (H : Host) where
  unfoldable pub get_results_dir : Text → Text
  get_results_dir base_path = H.abspath (base_path ++ text "../results/study/")

  abbrev pub estimated_mem_per_sim : Mobility → ℕ
  estimated_mem_per_sim omnet = 1
  estimated_mem_per_sim vadere = 1 + 15
  estimated_mem_per_sim sumo = 1 + 2

  -- How many simulations fit at the reading with a number. The bytes are below the precision of floats,
  -- and so is a rounded quotient from the next whole number.
  abbrev pub fitting : Mobility → ℕ → ℕ
  fitting mobility_sim i = H.memory i / (1024 * 1024 * 1024) / estimated_mem_per_sim mobility_sim

  unfoldable pub max_parallel_sims : Mobility → Machine → ℕ × Machine
  max_parallel_sims mobility_sim s =
      (fitting mobility_sim s.readings, record s { readings = s.readings + 1 })

  -- The loop that waits for memory, with the number of retries.
  unfoldable pub wait_for_memory : Mobility → ℕ → ℕ → Machine → ℕ × Machine
  unfolding max_parallel_sims
  wait_for_memory mobility_sim zero nr_parallel s = (nr_parallel, s)
  wait_for_memory mobility_sim (suc nr_retries) nr_parallel s = elim (ltb nr_parallel 1) [
    | false ↦ (nr_parallel, s)
    | true ↦
        let (nr, t) =
          max_parallel_sims mobility_sim (record s { events = s.events ++ (slept ∷ []) }) in
        wait_for_memory mobility_sim nr_retries nr t
  ]

  unfoldable pub run_parameter_study : Text → Mobility → Text → List Variation → Machine → Machine
  unfolding wait_for_memory get_results_dir
  run_parameter_study base_path mobility_sim config par_var s =
      if H.dir_exists (join_path (get_results_dir base_path) config)
      then s
      else let made = record s {
        events = s.events ++ (made_dir (get_results_dir base_path) ∷ []);
      } in
        let (first, read) = max_parallel_sims mobility_sim made in
        let (nr_parallel, waited) = wait_for_memory mobility_sim 20 first read in
        record waited {
          events =
              waited.events
              ++ (ran config mobility_sim (H.new_seed_variation par_var) nr_parallel ∷ []);
        }
