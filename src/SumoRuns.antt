-- ===== src/SumoRuns.antt =====
-- multi_enb/sumo/run_sumo_simulations.py: `ContainerList` and the functions that start one container for
-- each simulation and wait for all of them. crownetutils' argument lists, directories and runners, and
-- the host, are parameters; what the code prints and the log files are left out.
pub mod Names
pub mod Order
pub mod Waits
pub mod Tests
use crownet.Prelude.{
  ℕ, zero, suc, ◌+◌, ◌-◌, ◌==◌, ltb, Bool, true, false, Option, none, some, List, [], ◌∷◌, ◌++◌,
  if◌then◌else◌, Text, text, decimal, length, take, sort, map, Result, ok, err, value_error,
  name_error, or_raise,
}

-- `ArgList`: words with or without a value, and the list that it becomes.
pub record ArgLists : Type 1 where
  pub ArgList : Type 0
  pub empty : ArgList
  pub add : Text → Option Text → ArgList → ArgList
  pub add_cmd : Text → ArgList → ArgList
  pub append : Text → ArgList → ArgList
  pub to_list : ArgList → List Text
  pub from_flat_list : List Text → ArgList

-- The directories of a simulation, the files that `glob` finds, names of files and their numbers.
pub record Host : Type 0 where
  pub sim_root : Text → Text
  pub route : Text → Text
  pub fcd : Text → Text
  pub bm : Text → Text
  pub sumo_cfg : Text → Text
  pub glob : Text → List Text
  pub basename : Text → Text
  -- `int(text)`; `none` is its `ValueError`.
  pub int : Text → Option ℕ
  -- `s.replace(old, new)`
  pub replace : Text → Text → Text → Text
  pub sumo_home : Text
  -- The global `root`, which only the script itself sets.
  pub root : Option Text
  -- What `run` and `wait` of the container with a name and a command do.
  pub run : Text → List Text → Result (Unit {0})
  pub wait : Text → Result ℕ

-- What happens to the containers.
pub data Event : Type 0 where
  started : Text → List Text → Event
  waited : Text → Event
  cleaned : Text → Event

-- `ContainerList`, with what has happened.
pub record ContainerList : Type 0 where
  pub suffix : Text
  pub containers : List Text
  pub events : List Event

abbrev pub M : Type 0 → Type 0
M A = ContainerList → Result A × ContainerList

abbrev pub after : {A B : Type 0} → Result A × ContainerList → (A → M B) → Result B × ContainerList
after (ok a, c) next = next a c
after (err raised, c) next = (err raised, c)

infixl 5 ◌>>=◌ ◌>>◌
abbrev pub ◌>>=◌ : {A B : Type 0} → M A → (A → M B) → M B
◌>>=◌ m next c = after (m c) next

abbrev pub ◌>>◌ : {A B : Type 0} → M A → M B → M B
m >> next = m >>= λ _. next

abbrev pub return : {A : Type 0} → A → M A
return a c = (ok a, c)

abbrev pub lifted : {A : Type 0} → Result A → M A
lifted r c = (r, c)

-- f"{i:03}"
abbrev pub zeros : ℕ → Text → Text
zeros zero s = s
zeros (suc n) s = b'0' ∷ zeros n s

abbrev pub padded : ℕ → Text
padded i = zeros (3 - length (decimal i)) (decimal i)

abbrev pub container_name : ℕ → Text → Text
container_name i suffix = text "sumo_" ++ (padded i ++ (text "_" ++ suffix))

-- `os.path.join` of a directory and a name.
abbrev pub join_path : Text → Text → Text
join_path [] name = name
join_path (c ∷ []) name = if c == b'/' then c ∷ name else c ∷ b'/' ∷ name
join_path (c ∷ d ∷ dir) name = c ∷ join_path (d ∷ dir) name

module _ (H : Host) where
  abbrev note : Event → M (Unit {0})
  note e c = (ok tt, record c { events = c.events ++ (e ∷ []) })

  abbrev name_next : M Text
  name_next c = (ok (container_name (length c.containers) c.suffix), c)

  abbrev keep : Text → M (Unit {0})
  keep name c = (ok tt, record c { containers = c.containers ++ (name ∷ []) })

  unfoldable pub create_and_run : List Text → M (Unit {0})
  create_and_run cmd_list = do
    name ← name_next
    working_dir ← lifted (or_raise H.root name_error)
    lifted (H.run name cmd_list)
    note (started name cmd_list)
    keep name

  -- The loop of `wait` over the containers.
  unfoldable pub wait_for : List Text → M (Unit {0})
  wait_for [] = return tt
  wait_for (name ∷ names) = do
    ret ← lifted (H.wait name)
    note (waited name)
    note (cleaned name)
    wait_for names

  unfoldable pub wait : M (Unit {0})
  wait c = wait_for c.containers c

  abbrev pub run_all : List (List Text) → M (Unit {0})
  run_all [] = return tt
  run_all (cmd ∷ cmds) = create_and_run cmd >> run_all cmds

  -- `ContainerList()`, one container for each command, and `wait`.
  abbrev pub run_and_wait : Text → List (List Text) → Result (Unit {0}) × ContainerList
  run_and_wait suffix cmds =
      (run_all cmds >> wait) (record { suffix = suffix; containers = []; events = [] })

  -- `routes.sort(key=lambda x: int(os.path.basename(x)[0:3]))`
  abbrev pub numbered : List Text → Result (List (ℕ × Text))
  numbered [] = ok []
  numbered (path ∷ paths) = elim (H.int (take 3 (H.basename path))) [
    | none ↦ err value_error
    | some n ↦ elim (numbered paths) [ err raised ↦ err raised | ok rest ↦ ok ((n, path) ∷ rest) ]
  ]

  abbrev pub by_number : List (ℕ × Text) → List Text
  by_number keys = map (λ k. k.1) (sort (λ a b. ltb a.0 b.0) keys)

  module _ (L : ArgLists) where
    open L use {add, empty, to_list, add_cmd, append, from_flat_list}

    -- `args.add(...)` for a row of options.
    abbrev with_options : List (Text × Option Text) → L.ArgList → L.ArgList
    with_options [] args = args
    with_options ((k, v) ∷ options) args = with_options options (add k v args)

    -- The command of one simulation: it saves its configuration first.
    unfoldable pub simulation_command : Text → Text → ℕ → Text → List Text
    simulation_command net prefix i route =
        let args =
          with_options
            ((text "sumo", none)
              ∷ (text "--net-file", some net)
              ∷ (text "--route-files", some route)
              ∷ (text "--seed", some (text "1234"))
              ∷ (text "--step-length", some (text "0.4"))
              ∷ (text "--end", some (decimal 3600))
              ∷ (
                text "--fcd-output",
                some (H.fcd (padded i ++ (text "_" ++ (prefix ++ text "_fcd_muc.xml.gz")))),
              )
              ∷ [])
            empty in
        let args2 =
          with_options
            ((
              text "--save-configuration",
              some (H.sumo_cfg (padded i ++ (text "_" ++ (prefix ++ text ".sumocfg")))),
            )
              ∷ (text "--save-configuration.relative", none)
              ∷ [])
            (from_flat_list (to_list args)) in
        to_list args2 ++ (text "&&" ∷ to_list args)

    abbrev pub commands : (ℕ → Text → List Text) → ℕ → List Text → List (List Text)
    commands command i [] = []
    commands command i (path ∷ paths) = command i path ∷ commands command (i + 1) paths

    -- The three functions stop before any container if a number does not read.
    abbrev run_sorted :
        (ℕ → Text → List Text) → Text → Result (List (ℕ × Text)) → Result (Unit {0}) × ContainerList
    run_sorted command suffix (err raised) =
        (err raised, record { suffix = suffix; containers = []; events = [] })
    run_sorted command suffix (ok keys) = run_and_wait suffix (commands command 0 (by_number keys))

    unfoldable pub run_simulations : Text → Text → Text → Result (Unit {0}) × ContainerList
    run_simulations suffix net prefix =
        run_sorted (simulation_command net prefix) suffix
          (numbered (H.glob (H.route (text "*" ++ (prefix ++ text "_ped_route.xml")))))

    unfoldable pub conversion_command : Text → ℕ → Text → List Text
    conversion_command net i fcd =
        let bm = H.bm (
          H.replace (text "xml") (text "bonnmotion")
            (H.replace (text "fcd") [] (H.basename fcd))) in
        to_list (
          with_options
            ((H.sumo_home ++ text "/tools/traceExporter.py", none)
              ∷ (text "--fcd-input", some fcd)
              ∷ (text "--bonnmotion-output", some bm)
              ∷ (text "--net-input", some net)
              ∷ (text "--person", none)
              ∷ (text "--bonnmotion-min-trace-length", some (text "2"))
              ∷ (text "--bonnmotion-skip-min-trace-length", none)
              ∷ (text "--bonnmotion-omnet-origin", none)
              ∷ [])
            empty)

    unfoldable pub convert_fcd_to_bonnmotion :
        Text → Text → Text → Result (Unit {0}) × ContainerList
    convert_fcd_to_bonnmotion suffix net prefix =
        run_sorted (conversion_command net) suffix
          (numbered (H.glob (H.fcd (text "*" ++ (prefix ++ text "_fcd_muc.xml.gz")))))

    -- `rnd.randint(0, 100_000)` for each route, as its seeds.
    unfoldable pub route_command : Text → Text → ℕ → ℕ → List Text
    route_command net prefix i seed = to_list (
        add_cmd (text "$SUMO_HOME/tools/randomTrips.py") (
          with_options
            ((text "--net-file", some net)
              ∷ (text "--random", none)
              ∷ (text "-s", some (decimal seed))
              ∷ (text "--fringe-factor", some (decimal 1))
              ∷ (text "--insertion-density", some (decimal 6))
              ∷ (
                text "--output-trip-file",
                some (H.route (padded i ++ (text "_" ++ (prefix ++ text "_ped_trip.xml")))),
              )
              ∷ (
                text "--route-file",
                some (H.route (padded i ++ (text "_" ++ (prefix ++ text "_ped_route.xml")))),
              )
              ∷ (text "--begin", some (decimal 0))
              ∷ (text "--end", some (decimal 1800))
              ∷ (text "--verbose", none)
              ∷ (text "--additional-files", some (H.sim_root (text "custom_vtype.xml")))
              ∷ (text "--trip-attributes", some (text "'type=\\\"pedType1\\\"'"))
              ∷ (text "--pedestrians", none)
              ∷ (text "--max-distance", some (decimal 2000))
              ∷ [])
            empty))

    abbrev route_commands : Text → Text → ℕ → List ℕ → List (List Text)
    route_commands net prefix i [] = []
    route_commands net prefix i (seed ∷ seeds) =
        route_command net prefix i seed ∷ route_commands net prefix (i + 1) seeds

    unfoldable pub generate_routes : Text → Text → Text → List ℕ → Result (Unit {0}) × ContainerList
    generate_routes suffix net prefix seeds =
        run_and_wait suffix (route_commands net prefix 0 seeds)

    -- `time` is the formatted time of the call.
    unfoldable pub diff_command : Text → Text → List Text
    diff_command root time = to_list (
        append (time ++ text "_diff") (
          append (join_path root (text "muc.net.xml.gz")) (
            append (join_path root (text "muc_base.net.xml.gz")) (
              append (text "--patch-on-import") (
                append (text "--remove-plain")
                  (append (text "${SUMO_HOME}/tools/net/netdiff.py") empty))))))

    -- One container that is not detached, under the name that its runner gives it.
    unfoldable pub run_diff : Text → Text → Text → Result (Unit {0})
    unfolding diff_command
    run_diff name root time = H.run name (diff_command root time)
