-- ===== src/Docker/Main/Asked.antt =====
-- The command that each sub-command gives to its container, and the default commands afterwards.
use crownet.Prelude.{
  ℕ, ◌≡◌, ◌∙◌, refl, ap, Option, none, some, List, [], ◌∷◌, ◌++◌, Text, text, list_eq, nat_eq,
  lookup, update, contains, if◌then◌else◌, Result, ok, ◌>>=◌, >>=-regroup,
}
use crownet.Docker.{
  Command, omnetpp, vadere, vadere_gui, vadere_postvis, sumo, sumo_gui, Value, absent, words,
  intnet,
}
use crownet.Docker.Cli.{Namespace, env_of}
use crownet.Docker.Client.{
  Host, shared, own, CmdWrapper, wait_for, bash, DockerClient, Process, read_cmd, change_cmd,
  text_attr, wrap_command, wait_for_command, bash_command, insert, check_create_name,
  check_create_network,
}
use crownet.Docker.Main.{
  exec_cmd, project_words, init_and_run, main_func, main_omnetpp, main_vadere, main_vadere_gui,
  main_vadere_postvis, main_sumo, main_sumo_gui,
}
use crownet.Docker.Client.Names.{FirstFree, check_create_name-FirstFree}
use crownet.Docker.Main.Launches.{
  Options, Reads, launch, left, init_lem, init_and_run_lem, read_cmd-change_cmd,
}

-- The options that only some sub-commands have.
pub record Extra : Type 0 where
  pub exec : Option (List Text)
  pub project : Text

abbrev exec_value : Option (List Text) → Value
exec_value none = absent
exec_value (some cmd) = words cmd

abbrev pub ReadsExtra : Command → Namespace → Extra → Type 0
ReadsExtra omnetpp ns x = lookup (text "exec") ns.attrs ≡ some (exec_value x.exec)
ReadsExtra vadere ns x = lookup (text "exec") ns.attrs ≡ some (exec_value x.exec)
ReadsExtra vadere_gui ns x = text_attr ns (text "project") ≡ ok x.project
ReadsExtra vadere_postvis ns x = Unit
ReadsExtra sumo ns x = Unit
ReadsExtra sumo_gui ns x = Unit

abbrev given_or : Option (List Text) → List Text → List Text
given_or none cmd = cmd
given_or (some given) cmd = given

abbrev opened : Text → List Text
opened [] = []
opened (c ∷ path) = text "--project" ∷ (c ∷ path) ∷ []

abbrev in_bash : List Text → List Text
in_bash cmd = text "bash" ∷ text "-c" ∷ text "cd" ∷ text "." ∷ cmd

-- The command of the container, from the default command of the process.
abbrev pub asked_command : Command → Extra → List Text → List Text
asked_command omnetpp x cmd = text "/waitfor.sh" ∷ given_or x.exec cmd
asked_command vadere x cmd = in_bash (given_or x.exec cmd)
asked_command vadere_gui x cmd = in_bash (cmd ++ opened x.project)
asked_command vadere_postvis x cmd = in_bash cmd
asked_command sumo x cmd = in_bash cmd
asked_command sumo_gui x cmd = in_bash cmd

-- The default command of the process afterwards.
abbrev pub default_after : Command → Extra → List Text → List Text
default_after omnetpp x cmd = elim x.exec [ none ↦ text "/waitfor.sh" ∷ cmd | some given ↦ cmd ]
default_after vadere x cmd = elim x.exec [ none ↦ in_bash cmd | some given ↦ cmd ]
default_after vadere_gui x cmd = asked_command vadere_gui x cmd
default_after vadere_postvis x cmd = asked_command vadere_postvis x cmd
default_after sumo x cmd = asked_command sumo x cmd
default_after sumo_gui x cmd = asked_command sumo_gui x cmd

project_words_lem : (path : Text) → project_words path ≡ opened path
unfolding project_words
project_words_lem [] = refl
project_words_lem (c ∷ path) = refl

module _ (D : DockerClient) (host : Host) where
  -- What the daemon is asked for once there is a network, if the sub-command runs a container.
  abbrev pub then_run :
      Command → Options → Text → List (Text × Value) → List Text → D.Daemon → Result D.Daemon
  then_run omnetpp o name environment command = D.run (launch D host o name environment command)
  then_run vadere o name environment command = D.run (launch D host o name environment command)
  then_run vadere_gui o name environment command = D.run (launch D host o name environment command)
  then_run vadere_postvis o name environment command =
      D.run (launch D host o name environment command)
  then_run sumo o name environment command = D.run (launch D host o name environment command)
  then_run sumo_gui o name environment command = ok

  abbrev pub Outcome : Command → Namespace → Process D → Options → Extra → Text → Type 0
  Outcome c ns p o x name =
      (after : D.Daemon → Process D) × (main_func D host c ns p ≡ (
        (if contains (D.network_names p.daemon) intnet
          then ok p.daemon
          else D.create_network intnet p.daemon)
        >>= λ d.
            then_run c o name (update p.environment (env_of ns))
              (asked_command c x (p.cmds ns.command)) d
            >>= λ ran. ok (after ran)))
      × ((ran : D.Daemon)
          → ((after ran).daemon ≡ ran)
            × ((after ran).environment ≡ update p.environment (env_of ns))
            × ((after ran).cmds ns.command ≡ default_after c x (p.cmds ns.command)))

  -- A default command that was changed is what was read, changed.
  cmds-change_cmd :
      (f : List Text → List Text) (p : Process D) (c : Command)
      → (change_cmd D f p (shared c)).0.cmds c ≡ f (p.cmds c)
  unfolding read_cmd change_cmd
  cmds-change_cmd f p c = read_cmd-change_cmd D host f p (shared c)

  -- The two sub-commands with `--exec`, for each wrapper.
  exec_cmd-run :
      (wrap_type : CmdWrapper) (e : Option (List Text)) (ns : Namespace) (p : Process D)
      (o : Options) (name : Text)
      → Reads ns o
      → lookup (text "exec") ns.attrs ≡ some (exec_value e)
      → check_create_name (D.container_names p.daemon) o.container_name ≡ ok name
      → (after : D.Daemon → Process D) × ((exec_cmd ns >>= λ cmd.
            init_and_run D host wrap_type ns cmd p)
          ≡ (check_create_network D p.daemon >>= λ d.
              D.run
                (launch D host o name
                  (update p.environment (env_of ns))
                  (wrap_command wrap_type (given_or e (p.cmds ns.command))))
                d
              >>= λ ran. ok (after ran)))
        × ((ran : D.Daemon)
            → ((after ran).daemon ≡ ran)
              × ((after ran).environment ≡ update p.environment (env_of ns))
              × ((after ran).cmds ns.command ≡ elim e [
                | none ↦ wrap_command wrap_type (p.cmds ns.command)
                | some cmd ↦ p.cmds ns.command
              ]))
  unfolding exec_cmd read_cmd change_cmd
  exec_cmd-run wrap_type none ns p o name reads extra named = (
    left D host (wrap_command wrap_type) p (shared ns.command) (update p.environment (env_of ns)),
    rw (extra, exec_cmd)
        (init_and_run_lem D host wrap_type ns (shared ns.command) p o name reads named),
    λ ran. (refl, refl, cmds-change_cmd (wrap_command wrap_type) p ns.command),
  )
  exec_cmd-run wrap_type (some cmd) ns p o name reads extra named = (
    left D host (wrap_command wrap_type) p (own cmd) (update p.environment (env_of ns)),
    rw (extra, exec_cmd) (init_and_run_lem D host wrap_type ns (own cmd) p o name reads named),
    λ ran. (refl, refl, refl),
  )

  -- The process of `vadere-gui` after it has added the project to its default command.
  abbrev with_project : Text → Command → Process D → Process D
  with_project path c p = (change_cmd D (λ cmd. cmd ++ project_words path) p (shared c)).0

  project_read :
      (path : Text) (c : Command) (p : Process D)
      → (with_project path c p).cmds c ≡ p.cmds c ++ opened path
  project_read path c p =
      cmds-change_cmd (λ cmd. cmd ++ project_words path) p c
      ∙ ap (λ ws. p.cmds c ++ ws) (project_words_lem path)

  main_func-Outcome :
      (c : Command) (ns : Namespace) (p : Process D) (o : Options) (x : Extra) (name : Text)
      → Reads ns o
      → ReadsExtra c ns x
      → check_create_name (D.container_names p.daemon) o.container_name ≡ ok name
      → Outcome c ns p o x name
  unfolding main_func main_sumo main_vadere_postvis main_vadere main_omnetpp main_vadere_gui
      main_sumo_gui wrap_command bash_command wait_for_command insert read_cmd change_cmd
      check_create_network
  main_func-Outcome omnetpp ns p o x name reads extra named =
      exec_cmd-run wait_for x.exec ns p o name reads extra named
  main_func-Outcome vadere ns p o x name reads extra named =
      exec_cmd-run bash x.exec ns p o name reads extra named
  main_func-Outcome vadere_gui ns p o x name reads extra named = (
    left D host (wrap_command bash) (with_project x.project ns.command p) (shared ns.command)
        (update p.environment (env_of ns)),
    rw (extra, ← project_read x.project ns.command p)
        (init_and_run_lem D host bash ns (shared ns.command) (with_project x.project ns.command p) o
          name reads named),
    λ ran. (
      refl,
      refl,
      cmds-change_cmd (wrap_command bash) (with_project x.project ns.command p) ns.command
          ∙ ap in_bash (project_read x.project ns.command p),
    ),
  )
  main_func-Outcome vadere_postvis ns p o x name reads extra named = (
    left D host (wrap_command bash) p (shared ns.command) (update p.environment (env_of ns)),
    init_and_run_lem D host bash ns (shared ns.command) p o name reads named,
    λ ran. (refl, refl, cmds-change_cmd (wrap_command bash) p ns.command),
  )
  main_func-Outcome sumo ns p o x name reads extra named = (
    left D host (wrap_command bash) p (shared ns.command) (update p.environment (env_of ns)),
    init_and_run_lem D host bash ns (shared ns.command) p o name reads named,
    λ ran. (refl, refl, cmds-change_cmd (wrap_command bash) p ns.command),
  )
  main_func-Outcome sumo_gui ns p o x name reads extra named = (
    left D host (wrap_command bash) p (shared ns.command) (update p.environment (env_of ns)),
    rw (init_lem D host bash ns (shared ns.command) p o name reads named)
        (>>=-regroup (check_create_network D p.daemon) _ _ _ λ d. refl),
    λ ran. (refl, refl, cmds-change_cmd (wrap_command bash) p ns.command),
  )

  -- A sub-command whose options can be read builds one client. The container's name is the first
  -- free one. The sub-command makes the network where it is missing and then, unless it is
  -- `sumo-gui`, runs one container: with the image and the name of the options, with the shared
  -- environment updated by the command line's, and with the words that its wrapper puts before the
  -- command of `--exec` or the default command of the process; `sumo` ignores `--exec`. Afterwards
  -- the updated environment is the default of the process, and so is the wrapped command, unless
  -- `--exec` gave it. An error of the daemon is raised again.
  pub main_func-launch :
      (ns : Namespace) (p : Process D) (o : Options) (x : Extra)
      → Reads ns o
      → ReadsExtra ns.command ns x
      → (k : ℕ) × (name : Text) × FirstFree (D.container_names p.daemon) o.container_name 0 k name
        × Outcome ns.command ns p o x name
  main_func-launch ns p o x reads extra =
      let (k, name, named, free) =
        check_create_name-FirstFree (D.container_names p.daemon) o.container_name in
      (k, name, free, main_func-Outcome ns.command ns p o x name reads extra named)
