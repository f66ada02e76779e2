-- ===== src/Docker/Main.antt =====
-- cli.py: the function that `parse_args` chooses for each sub-command, `ns.main_func(ns)`.
pub mod Launches
pub mod Asked
use crownet.Prelude.{
  Option, none, some, List, [], ◌∷◌, ◌++◌, if◌then◌else◌, Text, text, list_eq, nat_eq, list_beq,
  lookup, Result, ok, err, attribute_error, type_error, ◌>>=◌, not, Bool, true, false, ◌==◌, ℕ,
}
use crownet.Docker.{
  Command, omnetpp, vadere, vadere_gui, vadere_postvis, sumo, sumo_gui, Value, absent, str, num,
  flag, words, default_cmd,
}
use crownet.Docker.Cli.{Namespace}
use crownet.Docker.Client.{
  Host, CmdRef, shared, own, CmdWrapper, wait_for, bash, DockerClient, Process, Client, init,
  run_container_x11, change_cmd, text_attr,
}

-- `ns.cmd` of a sub-command with `--exec`: the words after `--exec`, or the default.
exec_cmd : Namespace → Result CmdRef
exec_cmd ns = elim (lookup (text "exec") ns.attrs) [
  | none ↦ err attribute_error
  | some absent ↦ ok (shared ns.command)
  | some (words cmd) ↦ ok (own cmd)
  | some (str s) ↦ err type_error
  | some (num n) ↦ err type_error
  | some (flag b) ↦ err type_error
]

-- `if ns.project != "": ns.cmd.extend(["--project", ns.project])`
project_words : Text → List Text
project_words project = if list_beq project [] then [] else text "--project" ∷ project ∷ []

module _ (D : DockerClient) (host : Host) where
  pub init_and_run : CmdWrapper → Namespace → CmdRef → Process D → Result (Process D)
  unfolding init run_container_x11
  init_and_run wrap_type ns cmd p = do
    (q, client) ← init D host wrap_type ns cmd p
    run_container_x11 D client q

  main_omnetpp : Namespace → Process D → Result (Process D)
  unfolding exec_cmd init_and_run
  main_omnetpp ns p = exec_cmd ns >>= λ cmd. init_and_run wait_for ns cmd p

  main_vadere : Namespace → Process D → Result (Process D)
  unfolding exec_cmd init_and_run
  main_vadere ns p = exec_cmd ns >>= λ cmd. init_and_run bash ns cmd p

  main_vadere_gui : Namespace → Process D → Result (Process D)
  unfolding project_words change_cmd init_and_run
  main_vadere_gui ns p = do
    project ← text_attr ns (text "project")
    (q, cmd) ← ok (change_cmd D (λ cmd. cmd ++ project_words project) p (shared ns.command))
    init_and_run bash ns cmd q

  main_vadere_postvis : Namespace → Process D → Result (Process D)
  unfolding init_and_run
  main_vadere_postvis ns p = init_and_run bash ns (shared ns.command) p

  main_sumo : Namespace → Process D → Result (Process D)
  unfolding init_and_run
  main_sumo ns p = init_and_run bash ns (shared ns.command) p

  -- The client is built, and no container runs.
  main_sumo_gui : Namespace → Process D → Result (Process D)
  unfolding init
  main_sumo_gui ns p = do (q, client) ← init D host bash ns (shared ns.command) p; ok q

  -- `ns.main_func`, which the sub-parser has set.
  pub main_func : Command → Namespace → Process D → Result (Process D)
  unfolding main_omnetpp main_vadere main_vadere_gui main_vadere_postvis main_sumo main_sumo_gui
  main_func omnetpp = main_omnetpp
  main_func vadere = main_vadere
  main_func vadere_gui = main_vadere_gui
  main_func vadere_postvis = main_vadere_postvis
  main_func sumo = main_sumo
  main_func sumo_gui = main_sumo_gui

-- The process after the import of `common.py`.
abbrev pub start_process : (D : DockerClient) → Value → D.Daemon → Process D
start_process D crownet_home d = record {
  cmds = default_cmd;
  environment = (text "CROWNET_HOME", crownet_home) ∷ [];
  daemon = d;
}
