-- ===== src/Docker/Client.antt =====
-- docker_rover.py: `RoverClient`, and the shared state that it changes. `Cfg.config` and
-- `Cfg.run_args` copy one level of the default dicts, so the command lists and the environment that
-- a client changes are the defaults of the process. The docker daemon and the host are parameters;
-- `init` is for a host on which `check_ptrace`, which Ptrace has, only prints, and the call of `xhost`
-- is left out.
pub mod Names
use crownet.Prelude.{
  ℕ, zero, suc, ◌≡◌, ◌==◌, Bool, true, false, Option, none, some, List, [], ◌∷◌, ◌++◌,
  if◌then◌else◌, Text, text, list_eq, nat_eq, contains, length, take, drop, decimal, lookup, update,
  Result, ok, err, attribute_error, type_error, out_of_fuel, ◌>>=◌,
}
use crownet.Docker.{
  Command, omnetpp, vadere, vadere_gui, vadere_postvis, sumo, sumo_gui, Value, absent, str, num,
  flag, words, intnet,
}
use crownet.Docker.Cli.{Namespace, env_of, set_attr}

-- What the process reads of its host.
pub record Host : Type 0 where
  pub uid : ℕ
  pub isatty : Bool
  pub working_dir : Text

-- `ns.cmd`: the default list of a sub-command, or a list of the namespace's own.
pub data CmdRef : Type 0 where
  shared : Command → CmdRef
  own : List Text → CmdRef

-- `self.run_args`, with the environment and the command as references to lists that others share.
pub record RunArgs : Type 0 where
  pub image : Text
  pub name : Option Text
  pub network : Text
  pub remove : Bool
  pub user : ℕ
  pub hostname : Text
  pub detach : Bool
  pub tty : Bool
  pub stderr : Bool
  pub cap_add : List Text
  pub working_dir : Text

-- What `containers.run` gets.
pub record Launch : Type 0 where
  pub run_args : RunArgs
  pub environment : List (Text × Value)
  pub command : List Text

-- The docker daemon: the names of all its containers, running or not, and of its networks.
pub record DockerClient : Type 1 where
  pub Daemon : Type 0
  pub container_names : Daemon → List Text
  pub network_names : Daemon → List Text
  pub create_network : Text → Daemon → Result Daemon
  pub run : Launch → Daemon → Result Daemon

unfoldable pub command_index : Command → ℕ
command_index omnetpp = 0
command_index vadere = 1
command_index vadere_gui = 2
command_index vadere_postvis = 3
command_index sumo = 4
command_index sumo_gui = 5

-- The attributes that the client reads; a string stands in each after `parse_args`.
unfoldable pub text_of : Option Value → Result Text
text_of none = err attribute_error
text_of (some (str s)) = ok s
text_of (some (words ws)) = err type_error
text_of (some (num n)) = err type_error
text_of (some (flag b)) = err type_error
text_of (some absent) = err type_error

-- `if self.ns.random_name`
unfoldable pub truth_of : Option Value → Result Bool
truth_of none = err attribute_error
truth_of (some (flag b)) = ok b
truth_of (some (str [])) = ok false
truth_of (some (str (c ∷ s))) = ok true
truth_of (some (words [])) = ok false
truth_of (some (words (w ∷ ws))) = ok true
truth_of (some (num zero)) = ok false
truth_of (some (num (suc n))) = ok true
truth_of (some absent) = ok false

unfoldable pub text_attr : Namespace → Text → Result Text
unfolding text_of
text_attr ns dest = text_of (lookup dest ns.attrs)

unfoldable pub truth_attr : Namespace → Text → Result Bool
unfolding truth_of
truth_attr ns dest = truth_of (lookup dest ns.attrs)

-- `list.insert`
unfoldable pub insert : ℕ → Text → List Text → List Text
insert i x xs = take i xs ++ (x ∷ drop i xs)

unfoldable pub wait_for_command : List Text → List Text
unfolding insert
wait_for_command cmd = insert 0 (text "/waitfor.sh") cmd

unfoldable pub bash_command : List Text → List Text
unfolding insert
bash_command cmd =
    insert 3 (text ".") (insert 2 (text "cd") (insert 1 (text "-c") (insert 0 (text "bash") cmd)))

pub data CmdWrapper : Type 0 where
  wait_for bash : CmdWrapper

unfoldable pub wrap_command : CmdWrapper → List Text → List Text
unfolding wait_for_command bash_command
wrap_command wait_for cmd = wait_for_command cmd
wrap_command bash cmd = bash_command cmd

-- The loop of `check_create_name`, from a name and an index.
unfoldable pub name_loop : List Text → Text → ℕ → Text → ℕ → Result Text
name_loop names base zero name idx = err out_of_fuel
name_loop names base (suc fuel) name idx = elim (contains names name) [
  | true ↦ name_loop names base fuel (base ++ decimal idx) (suc idx)
  | false ↦ ok name
]

-- One round more than there are names.
unfoldable pub check_create_name : List Text → Text → Result Text
unfolding name_loop
check_create_name names base = name_loop names base (suc (length names)) base 0

module _ (D : DockerClient) where
  -- The state of the process: the default command lists, the default environment, and the daemon.
  pub record Process : Type 0 where
    pub cmds : Command → List Text
    pub environment : List (Text × Value)
    pub daemon : D.Daemon

  unfoldable pub read_cmd : Process → CmdRef → List Text
  read_cmd p (shared c) = p.cmds c
  read_cmd p (own cmd) = cmd

  -- A list method that changes `ns.cmd`.
  unfoldable pub change_cmd : (List Text → List Text) → Process → CmdRef → Process × CmdRef
  unfolding command_index
  change_cmd f p (shared c) = (
    record p { cmds = λ d. if command_index d == command_index c then f (p.cmds d) else p.cmds d },
    shared c,
  )
  change_cmd f p (own cmd) = (p, own (f cmd))

  unfoldable pub check_create_network : D.Daemon → Result D.Daemon
  check_create_network d =
      if contains (D.network_names d) intnet then ok d else D.create_network intnet d

  pub record Client : Type 0 where
    pub cmd : CmdRef
    pub run_args : RunArgs

  -- `RoverClient.__init__`. The command is wrapped before the arguments are read.
  unfoldable pub init : Host → CmdWrapper → Namespace → CmdRef → Process → Result (Process × Client)
  unfolding wrap_command change_cmd check_create_network check_create_name text_attr truth_attr
  init host wrap_type ns cmd p = do
    base ← text_attr ns (text "container_name")
    name ← check_create_name (D.container_names p.daemon) base
    (wrapped, ref) ← ok (change_cmd (wrap_command wrap_type) p cmd)
    registry ← text_attr ns (text "registry")
    image_name ← text_attr ns (text "image_name")
    tag ← text_attr ns (text "tag")
    random_name ← truth_attr ns (text "random_name")
    connected ← check_create_network wrapped.daemon
    ok (
      record wrapped { daemon = connected; environment = update wrapped.environment (env_of ns) },
      record {
        cmd = ref;
        run_args = record {
          image = registry ++ (image_name ++ (b':' ∷ tag));
          name = if random_name then none else some name;
          network = intnet;
          remove = false;
          user = host.uid;
          hostname = name;
          detach = false;
          tty = host.isatty;
          stderr = true;
          cap_add = text "SYS_PTRACE" ∷ [];
          working_dir = host.working_dir;
        };
      },
    )

  -- `run_container_x11`
  unfoldable pub run_container_x11 : Client → Process → Result Process
  unfolding read_cmd
  run_container_x11 client p = do
    ran ←
        D.run
          (record {
            run_args = client.run_args;
            environment = p.environment;
            command = read_cmd p client.cmd;
          })
          p.daemon
    ok (record p { daemon = ran })
