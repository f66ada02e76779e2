-- ===== src/Docker/Tests.antt =====
-- The docker wrapper at concrete command lines, against a daemon that records names.
use crownet.Prelude.{
  ℕ, ◌≡◌, refl, true, false, none, some, List, [], ◌∷◌, ◌++◌, Text, text, nat_eq, list_eq, lookup,
  decimal, ok,
}
use crownet.Docker.{vadere_gui, sumo, str, num}
use crownet.Docker.Cli.{
  Namespace, Occurrence, actions, parse_known, find_spec, act, env_action, env_pair, env_key,
  set_attr, start_namespace, parse_args, env_of,
}
use crownet.Docker.Cli.Env.{given, default_pairs}
use crownet.Docker.Cli.Defaults.{parse_args-first}
use crownet.Docker.Client.{
  DockerClient, Launch, Host, Process, check_create_name, name_loop, text_attr, text_of, truth_attr,
  truth_of,
}
use crownet.Docker.Client.Names.{FirstFree, check_create_name-FirstFree}
use crownet.Docker.Main.{start_process}
use crownet.Docker.Main.Launches.{Options}
use crownet.Docker.Main.Asked.{Extra, Outcome, main_func-launch}

-- The option `--traci-port 1234` before `--env TRACI_PORT=5 X=7`.
abbrev traci_line : List Occurrence
traci_line =
    record { option = text "--traci-port"; values = text "1234" ∷ [] }
    ∷ record { option = text "--env"; values = text "A=5" ∷ text "X=7" ∷ [] }
    ∷ []

abbrev traci_namespace : Namespace
traci_namespace = record (start_namespace sumo) {
  env_dict = some ((text "TRACI_PORT", str (text "1234")) ∷ (text "A", str (text "5")) ∷ []);
}

parse_args-first_example :
    (ns : Namespace) × (parse_args (some sumo) traci_line ≡ ok ns)
    × ((k : Text)
        → lookup k (env_of ns)
          ≡ lookup k (given (actions sumo) traci_line ++ default_pairs (actions sumo)))
unfolding parse_known find_spec act env_action env_pair env_key set_attr actions
parse_args-first_example = parse_args-first sumo traci_line traci_namespace refl

abbrev three_names : List Text
three_names = text "vadere" ∷ text "vadere0" ∷ text "sumo" ∷ []

check_create_name-FirstFree_example :
    (k : ℕ) × (name : Text) × (check_create_name three_names (text "vadere") ≡ ok name)
    × FirstFree three_names (text "vadere") 0 k name
check_create_name-FirstFree_example = check_create_name-FirstFree three_names (text "vadere")

third_name : check_create_name three_names (text "vadere") ≡ ok (text "vadere1")
unfolding check_create_name name_loop decimal
third_name = refl

-- A daemon is the names of its containers and those of its networks.
abbrev ran_names : Launch → List Text
ran_names l = elim l.run_args.name [ none ↦ [] | some name ↦ name ∷ [] ]

abbrev recorder : DockerClient
recorder = record {
  Daemon = List Text × List Text;
  container_names = λ d. d.0;
  network_names = λ d. d.1;
  create_network = λ n d. ok (d.0, d.1 ++ (n ∷ []));
  run = λ l d. ok (d.0 ++ ran_names l, d.1);
}

abbrev desk : Host
desk = record { uid = 1000; isatty = true; working_dir = text "/home/rover" }

abbrev gui_options : Options
gui_options = record {
  container_name = text "vadere";
  image_name = text "vadere";
  registry = text "sam-dev.cs.hm.edu:5023/rover/crownet/";
  tag = text "latest";
  random_name = false;
}

abbrev gui_extra : Extra
gui_extra = record { exec = none; project = text "demo" }

abbrev gui_namespace : Namespace
gui_namespace = record (start_namespace vadere_gui) {
  attrs = (text "project", str (text "demo")) ∷ (start_namespace vadere_gui).attrs;
  env_dict = some ((text "TRACI_PORT", num 9998) ∷ []);
}

abbrev gui_process : Process recorder
gui_process = start_process recorder (str (text "/crownet")) (text "vadere" ∷ [], [])

main_func-launch_example :
    (k : ℕ) × (name : Text) × FirstFree (text "vadere" ∷ []) (text "vadere") 0 k name
    × Outcome recorder desk vadere_gui gui_namespace gui_process gui_options gui_extra name
unfolding text_attr text_of truth_attr truth_of actions
main_func-launch_example =
    main_func-launch recorder desk gui_namespace gui_process gui_options gui_extra
      (refl, refl, refl, refl, refl) refl
