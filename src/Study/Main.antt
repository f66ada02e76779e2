-- ===== src/Study/Main.antt =====
-- study.py: `main`, which runs the configurations, analyses those that have no results yet and keeps
-- the results of each and of all.
use crownet.Prelude.{
  ℕ, ◌*◌, Bool, ◌||◌, Option, none, some, List, [], ◌∷◌, ◌++◌, map, range_from, if◌then◌else◌, Text,
  text, decimal, list_eq, list_beq, nat_eq, has_text, has_key, lookup, put, Result, err,
  value_error, file_not_found_error,
}
use crownet.States.{M, ◌>>=◌, ◌>>◌, return, raising, lifted, reading, changing}
use crownet.SumoRuns.{join_path}
use crownet.Study.{Tools, Names, analyze_parameter_study}
use crownet.Study.Memory.{
  Mobility, vadere, sumo, Variation, Event, analysed, asked, removed, Host, Machine,
  get_results_dir, run_parameter_study,
}

abbrev pub configs : List Text
configs =
    text "sumoOnly2"
    ∷ text "vadereOnly2"
    ∷ text "sumoSimple"
    ∷ text "sumoSimpleTcp"
    ∷ text "vadereSimple"
    ∷ text "vadereSimpleTcp"
    ∷ text "sumoBottleneck"
    ∷ text "sumoBottleneckTcp"
    ∷ text "vadereBottleneck"
    ∷ text "vadereBottleneckTcp"
    ∷ []

-- `var`; `hundredths p` is f"{p * 0.01}".
abbrev var : (ℕ → Text) → Text → ℕ → Variation
var hundredths configuration p =
    if has_text (text "Tcp") configuration
    then record {
      sim_time_limit = 600;
      key = text "*.*Node[*].app[0].replyLength";
      value = text "intWithUnit(exponential(" ++ (decimal (p * 10) ++ text "kB))");
    }
    else record {
      sim_time_limit = 600;
      key = text "*.*Node[*].app[0].scheduler.generationInterval";
      value = hundredths p ++ text "s";
    }

-- `np.arange(1, 11, 1)`
unfoldable pub par_var : (ℕ → Text) → Text → List Variation
par_var hundredths configuration = map (var hundredths configuration) (range_from 1 10)

abbrev var_parameter : Text → Text × Text
var_parameter c =
    if has_text (text "Tcp") c
    then (text "World.pNode[0].app[0]", text "replyLength")
    else (text "World.pNode[0].app[0].scheduler", text "generationInterval")

abbrev vectors_analyzed : Text → Names
vectors_analyzed c =
    if has_text (text "Tcp") c
    then (text "World.pNode[%].tcp.conn%", text "rtt" ∷ [])
      ∷ (text "World.pNode[%].cellularNic.nrChannelModel[0]", text "rcvdSinrUl" ∷ [])
      ∷ []
    else (text "World.pNode[%].app[0].app", text "rcvdPkLifetime" ∷ text "rcvdPkHostId" ∷ [])
      ∷ (text "World.pNode[%].cellularNic.channelModel[0]", text "rcvdSinrUl" ∷ [])
      ∷ []

abbrev scalars_analyzed : Text → Names
scalars_analyzed c =
    if has_text (text "Tcp") c
    then (text "World.pNode[%].cellularNic.mac", text "receivedPacketFromLowerLayer:count" ∷ [])
      ∷ (text "World.pNode[%].app[%]", text "packetReceived:count" ∷ [])
      ∷ []
    else (text "World.pNode[%].cellularNic.mac", text "receivedPacketFromLowerLayer:count" ∷ [])
      ∷ (text "World.pNode[%].udp", text "packetReceived:count" ∷ [])
      ∷ []

-- `to_csv` and `read_csv`, which may raise, and the simulations that a configuration has left in its
-- directory.
pub record Tables (T : Tools) : Type 1 where
  pub Csv : Type 0
  pub to_csv : T.Frame → Csv
  pub read_csv : Csv → Result T.Frame
  pub get_simulations : Text → List T.Sim

pub record World (Csv : Type 0) : Type 0 where
  pub machine : Machine
  pub files : List (Text × Csv)

module _ (T : Tools) (B : Tables T) (H : Host) where
  open T use {Frame}
  open B use {Csv}

  abbrev pub note : Event → M (World Csv) (Unit {0})
  note e =
      changing
        λ w. record w { machine = record w.machine { events = w.machine.events ++ (e ∷ []) } }

  abbrev pub exists : Text → M (World Csv) Bool
  exists path = reading λ w. has_key path w.files

  abbrev pub write : Text → Frame → M (World Csv) (Unit {0})
  write path frame = changing λ w. record w { files = put path (B.to_csv frame) w.files }

  abbrev pub read_file : Option Csv → Result Frame
  read_file none = err file_not_found_error
  read_file (some csv) = B.read_csv csv

  abbrev pub read : Text → M (World Csv) Frame
  read path w = (read_file (lookup path w.files), w)

  -- The files that are left when one is removed.
  abbrev pub without : Text → List (Text × Csv) → List (Text × Csv)
  without path [] = []
  without path ((name, csv) ∷ files) =
      let rest = without path files in if list_beq path name then rest else (name, csv) ∷ rest

  -- `os.remove`
  abbrev pub remove : Text → M (World Csv) (Unit {0})
  remove path = exists path >>= λ there.
      if there
      then (note (removed path) >> changing λ w. record w { files = without path w.files })
      else raising file_not_found_error

  abbrev pub run : Text → Mobility → Text → List Variation → M (World Csv) (Unit {0})
  run base_path mobility config pars =
      changing
        λ w. record w { machine = run_parameter_study H base_path mobility config pars w.machine }

  -- The loop that runs the studies.
  unfoldable pub run_studies : Text → (ℕ → Text) → List Text → M (World Csv) (Unit {0})
  unfolding par_var
  run_studies base_path hundredths [] = return tt
  run_studies base_path hundredths (config ∷ rest) =
      (if has_text (text "sumo") config
        then run base_path sumo config (par_var hundredths config)
        else if has_text (text "vadere") config
        then run base_path vadere config (par_var hundredths config)
        else raising value_error)
      >> run_studies base_path hundredths rest

  abbrev pub part_path : Text → Text → Text
  part_path dir config =
      join_path (join_path dir config) (text "qoi_part_" ++ (config ++ text ".csv"))

  abbrev pub t_part_path : Text → Text → Text
  t_part_path dir config =
      join_path (join_path dir config) (text "qoi_t_part_" ++ (config ++ text ".csv"))

  unfoldable pub analysis : Text → Text → Result (Frame × Option Frame)
  unfolding analyze_parameter_study
  analysis dir config =
      analyze_parameter_study T 10 (B.get_simulations (join_path dir config)) config
        (var_parameter config) (vectors_analyzed config) (scalars_analyzed config)

  -- The results of one configuration: analysed and written, or read.
  abbrev pub fresh : Text → Text → M (World Csv) (Frame × Option Frame)
  fresh dir config = lifted (analysis dir config) >>= λ found.
      note (analysed config) >> write (part_path dir config) found.0 >> elim found.1 [
        | none ↦ return found
        | some qoi_t ↦ write (t_part_path dir config) qoi_t >> return found
      ]

  abbrev pub loaded : Text → Text → M (World Csv) (Frame × Option Frame)
  loaded dir config = exists (t_part_path dir config) >>= λ there.
      read (part_path dir config) >>= λ qoi.
      if there
      then (read (t_part_path dir config) >>= λ qoi_t. return (qoi, some qoi_t))
      else return (qoi, none)

  abbrev pub part : Text → Text → M (World Csv) (Frame × Option Frame)
  part dir config = exists (part_path dir config) >>= λ there.
      if there then loaded dir config else fresh dir config

  abbrev pub grown : Frame × Frame → Frame × Option Frame → Frame × Frame
  grown results (qoi, none) = (T.concat (results.0 ∷ qoi ∷ []), results.1)
  grown results (qoi, some qoi_t) =
      (T.concat (results.0 ∷ qoi ∷ []), T.concat (results.1 ∷ qoi_t ∷ []))

  -- The loop over the configurations.
  unfoldable pub collect : Text → List Text → Frame × Frame → M (World Csv) (Frame × Frame)
  collect dir [] results = return results
  collect dir (config ∷ rest) results =
      part dir config >>= λ found. collect dir rest (grown results found)

  abbrev pub ask : Text → Text → M (World Csv) (Unit {0})
  ask qoi_path qoi_t_path =
      note (asked qoi_path)
      >> (if list_beq H.confirmation (text "y") || list_beq H.confirmation (text "yes")
          then (remove qoi_path >> remove qoi_t_path)
          else return tt)

  -- `main` on a list of configurations, up to the plots.
  unfoldable pub main_on : List Text → Text → (ℕ → Text) → M (World Csv) (Frame × Frame)
  unfolding run_studies collect get_results_dir
  main_on configurations base_path hundredths =
      let qoi_path = join_path base_path (text "qoi_results.csv") in
      let qoi_t_path = join_path base_path (text "qoi_results_t.csv") in
      run_studies base_path hundredths configurations >> exists qoi_path >>= λ before.
      (if before then ask qoi_path qoi_t_path else return tt) >> exists qoi_path >>= λ kept.
      if kept
      then (read qoi_path >>= λ qoi. read qoi_t_path >>= λ qoi_t. return (qoi, qoi_t))
      else (collect (get_results_dir H base_path) configurations (T.empty, T.empty) >>= λ results.
          write qoi_path results.0 >> write qoi_t_path results.1 >> return results)

  unfoldable pub main : Text → (ℕ → Text) → M (World Csv) (Frame × Frame)
  unfolding main_on
  main base_path hundredths = main_on configs base_path hundredths
