-- ===== src/Docker/Main/Launches.antt =====
-- What each sub-command asks of the docker daemon, and what it leaves behind in the process.
use crownet.Prelude.{
  ◌≡◌, refl, Bool, true, false, none, some, List, [], ◌∷◌, ◌++◌, if◌then◌else◌, Text, text, list_eq,
  nat_eq, update, ok, ◌>>=◌, >>=-regroup, ==_iff,
}
use crownet.Docker.{Value, intnet}
use crownet.Docker.Cli.{Namespace, env_of}
use crownet.Docker.Client.{
  Host, CmdRef, shared, own, CmdWrapper, DockerClient, Process, RunArgs, Launch, init,
  run_container_x11, read_cmd, change_cmd, text_attr, truth_attr, command_index, wrap_command,
  check_create_name, check_create_network,
}
use crownet.Docker.Main.{init_and_run}

-- The options that every sub-command has, as the client reads them.
pub record Options : Type 0 where
  pub container_name : Text
  pub image_name : Text
  pub registry : Text
  pub tag : Text
  pub random_name : Bool

abbrev pub Reads : Namespace → Options → Type 0
Reads ns o =
    (text_attr ns (text "container_name") ≡ ok o.container_name)
    × (text_attr ns (text "image_name") ≡ ok o.image_name)
    × (text_attr ns (text "registry") ≡ ok o.registry)
    × (text_attr ns (text "tag") ≡ ok o.tag)
    × (truth_attr ns (text "random_name") ≡ ok o.random_name)

abbrev pub run_args_of : Host → Options → Text → RunArgs
run_args_of host o name = record {
  image = o.registry ++ (o.image_name ++ (b':' ∷ o.tag));
  name = if o.random_name then none else some name;
  network = intnet;
  remove = false;
  user = host.uid;
  hostname = name;
  detach = false;
  tty = host.isatty;
  stderr = true;
  cap_add = text "SYS_PTRACE" ∷ [];
  working_dir = host.working_dir;
}

module _ (D : DockerClient) (host : Host) where
  -- A change through a reference is seen through the reference.
  pub read_cmd-change_cmd :
      (f : List Text → List Text) (p : Process D) (ref : CmdRef)
      → read_cmd D (change_cmd D f p ref).0 (change_cmd D f p ref).1 ≡ f (read_cmd D p ref)
  unfolding read_cmd change_cmd
  read_cmd-change_cmd f p (shared c) = rw ((==_iff (command_index c) (command_index c)).1 refl)
  read_cmd-change_cmd f p (own cmd) = refl

  change_cmd_others :
      (f : List Text → List Text) (p : Process D) (ref : CmdRef)
      → ((change_cmd D f p ref).0.environment ≡ p.environment)
        × ((change_cmd D f p ref).0.daemon ≡ p.daemon)
  unfolding change_cmd
  change_cmd_others f p (shared c) = (refl, refl)
  change_cmd_others f p (own cmd) = (refl, refl)

  pub init_lem :
      (wrap_type : CmdWrapper) (ns : Namespace) (ref : CmdRef) (p : Process D) (o : Options)
      (name : Text)
      → Reads ns o
      → check_create_name (D.container_names p.daemon) o.container_name ≡ ok name
      → init D host wrap_type ns ref p ≡ (
          check_create_network D p.daemon >>= λ d. ok (
            record (change_cmd D (wrap_command wrap_type) p ref).0 {
              daemon = d;
              environment = update p.environment (env_of ns);
            },
            record {
              cmd = (change_cmd D (wrap_command wrap_type) p ref).1;
              run_args = run_args_of host o name;
            },
          ))
  unfolding init
  init_lem wrap_type ns ref p o name (container, image, registry, tag, random) named =
      let (environment, daemon) = change_cmd_others (wrap_command wrap_type) p ref in
      rw (container, named, image, registry, tag, random, environment, daemon) refl

  -- What the daemon is asked for, then what the process is with the daemon that follows.
  abbrev pub launch : Options → Text → List (Text × Value) → List Text → Launch
  launch o name environment command = record {
    run_args = run_args_of host o name;
    environment = environment;
    command = command;
  }

  -- The process after a command was changed and the daemon and the environment replaced.
  abbrev pub left :
      (List Text → List Text) → Process D → CmdRef → List (Text × Value) → D.Daemon → Process D
  left f p ref environment d = record (change_cmd D f p ref).0 {
    daemon = d;
    environment = environment;
  }

  read_cmd-record :
      (p : Process D) (ref : CmdRef) (d : D.Daemon) (environment : List (Text × Value))
      → read_cmd D (record p { daemon = d; environment = environment }) ref ≡ read_cmd D p ref
  unfolding read_cmd
  read_cmd-record p (shared c) d environment = refl
  read_cmd-record p (own cmd) d environment = refl

  pub init_and_run_lem :
      (wrap_type : CmdWrapper) (ns : Namespace) (ref : CmdRef) (p : Process D) (o : Options)
      (name : Text)
      → Reads ns o
      → check_create_name (D.container_names p.daemon) o.container_name ≡ ok name
      → init_and_run D host wrap_type ns ref p ≡ (
          check_create_network D p.daemon >>= λ d.
          D.run
            (launch o name
              (update p.environment (env_of ns))
              (wrap_command wrap_type (read_cmd D p ref)))
            d
          >>= λ ran.
              ok (left (wrap_command wrap_type) p ref (update p.environment (env_of ns)) ran))
  unfolding init_and_run run_container_x11
  init_and_run_lem wrap_type ns ref p o name reads named =
      rw (init_lem wrap_type ns ref p o name reads named) (
        >>=-regroup (check_create_network D p.daemon) _ _ _ λ d.
          rw
            (
              read_cmd-record (change_cmd D (wrap_command wrap_type) p ref).0
                  (change_cmd D (wrap_command wrap_type) p ref).1 d
                  (update p.environment (env_of ns)),
              read_cmd-change_cmd (wrap_command wrap_type) p ref,
            )
            refl)
