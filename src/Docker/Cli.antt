-- ===== src/Docker/Cli.antt =====
-- cli.py: the options of each sub-command, `EnvAction`, and `parse_args`. `argparse` itself splits
-- the words of the command line; the model starts from the options that it has recognised, in order.
pub mod Env
pub mod Defaults
use crownet.Prelude.{
  ℕ, ◌-◌, Bool, true, false, ◌&&◌, not, Option, none, some, List, [], ◌∷◌, ◌++◌, map, leb, ◌==◌,
  if◌then◌else◌, Text, text, split, starts_with, drop, contains, list_eq, nat_eq, list_beq, Result,
  ok, err, value_error, type_error, index_error, attribute_error, system_exit, ◌>>=◌, lookup,
  has_key, put, set_default,
}
use crownet.Docker.{
  Command, omnetpp, vadere, vadere_gui, vadere_postvis, sumo, sumo_gui, Value, absent, str, num,
  flag, words, default_image_name,
}

-- How an option treats its values: `store` with one value or with `nargs="+"`, `store_true`, and
-- `EnvAction`, again with one value or with several.
pub data Action : Type 0 where
  store store_many store_true env env_many : Action

pub record Spec : Type 0 where
  pub option_strings : List Text
  pub dest : Text
  pub action : Action
  pub default : Value

abbrev spec : List Text → Text → Action → Value → Spec
spec names dest action default = record {
  option_strings = names;
  dest = dest;
  action = action;
  default = default;
}

-- `add_default_args`
abbrev add_default_args : Text → List Spec
add_default_args container_name =
    spec (text "-n" ∷ text "--container-name" ∷ []) (text "container_name") store
      (str container_name)
    ∷ spec (text "-i" ∷ text "--image-name" ∷ []) (text "image_name") store (str container_name)
    ∷ spec (text "-r" ∷ text "--registry" ∷ []) (text "registry") store
        (str (text "sam-dev.cs.hm.edu:5023/rover/crownet/"))
    ∷ spec (text "-t" ∷ text "--tag" ∷ []) (text "tag") store (str (text "latest"))
    ∷ spec (text "--rm" ∷ []) (text "rm") store_true (flag true)
    ∷ spec (text "--random-name" ∷ []) (text "random_name") store_true (flag false)
    ∷ spec (text "--env" ∷ []) (text "env") env_many absent
    ∷ []

-- `add_traci_args`
abbrev add_traci_args : ℕ → Bool → List Spec
add_traci_args default_port default_gui =
    spec (text "--traci-port" ∷ []) (text "traci_port") env (num default_port)
    ∷ spec (text "--traci-gui" ∷ []) (text "traci_gui") env (flag default_gui)
    ∷ spec (text "--traci-debug" ∷ []) (text "traci_debug") env (flag false)
    ∷ []

abbrev exec_arg : Spec
exec_arg = spec (text "--exec" ∷ []) (text "exec") store_many absent

-- The actions of each sub-parser, in the order in which its `parser_...` function adds them.
unfoldable pub actions : Command → List Spec
unfolding default_image_name
actions omnetpp = exec_arg ∷ add_default_args (default_image_name omnetpp)
actions vadere =
    exec_arg ∷ (add_default_args (default_image_name vadere) ++ add_traci_args 9998 false)
actions vadere_gui =
    spec (text "--project" ∷ []) (text "project") store (str [])
    ∷ (add_default_args (default_image_name vadere_gui) ++ add_traci_args 9998 true)
actions vadere_postvis =
    add_default_args (default_image_name vadere_postvis) ++ add_traci_args 9998 true
actions sumo = exec_arg ∷ (add_default_args (default_image_name sumo) ++ add_traci_args 9999 false)
actions sumo_gui = add_default_args (default_image_name sumo_gui) ++ add_traci_args 9999 true

-- `option_string[2:].replace("-", "_").upper()`, on the ASCII letters.
abbrev key_char : ℕ → ℕ
key_char c = if c == b'-' then b'_' else if leb b'a' c && leb c b'z' then c - 32 else c

unfoldable pub env_key : Text → Text
env_key option = map key_char (drop 2 option)

-- The namespace: the attributes by `dest`, and `env_dict` once it is there.
pub record Namespace : Type 0 where
  pub command : Command
  pub attrs : List (Text × Value)
  pub env_dict : Option (List (Text × Value))

abbrev pub env_of : Namespace → List (Text × Value)
env_of ns = elim ns.env_dict [ none ↦ [] | some d ↦ d ]

-- The pair that `EnvAction.__call__` takes from the words of an option. `--env` uses its first word
-- alone, and `a, b = s.split("=")` raises `ValueError` unless there are two parts. Raising an
-- `ArgumentParser`, which is no exception, is a `TypeError`.
abbrev two_parts : List Text → Result (Text × Value)
two_parts (key ∷ val ∷ []) = ok (key, str val)
two_parts _ = err value_error

-- `values[0]`
abbrev first_of_values : Value → Result Text
first_of_values (words []) = err index_error
first_of_values (words (w ∷ ws)) = ok w
first_of_values (str []) = err index_error
first_of_values (str (c ∷ s)) = ok (c ∷ [])
first_of_values (num n) = err type_error
first_of_values (flag b) = err type_error
first_of_values absent = err type_error

unfoldable pub env_pair : Text → Value → Result (Text × Value)
unfolding env_key
env_pair option values =
    if list_beq option (text "--env")
    then (first_of_values values >>= λ w. two_parts (split b'=' w))
    else if starts_with option (text "--")
    then ok (env_key option, values)
    else err type_error

-- `EnvAction.__call__`: the first value of a key stays.
unfoldable pub env_action : Namespace → Value → Text → Result Namespace
unfolding env_pair
env_action ns values option = do
  (key, val) ← env_pair option values
  ok (record ns { env_dict = some (set_default key val (env_of ns)) })

-- `self.env_dict_key` of `EnvAction.__init__`, from the first spelling of the option.
unfoldable pub env_dict_key : List Text → Option Text
unfolding env_key
env_dict_key [] = none
env_dict_key (option ∷ _) =
    if list_beq option (text "--env")
    then none
    else if starts_with option (text "--")
    then some (env_key option)
    else none

-- An option that `argparse` has recognised, as it was spelled, with its words.
pub record Occurrence : Type 0 where
  pub option : Text
  pub values : List Text

unfoldable pub set_attr : Namespace → Text → Value → Namespace
set_attr ns dest v = record ns { attrs = put dest v ns.attrs }

-- `argparse` calls the option's action with the words that follow the option; a wrong number of
-- words ends the program.
unfoldable pub act : Action → Text → Text → List Text → Namespace → Result Namespace
unfolding set_attr env_action
act store dest option (v ∷ []) ns = ok (set_attr ns dest (str v))
act store dest option _ ns = err system_exit
act store_many dest option (v ∷ vs) ns = ok (set_attr ns dest (words (v ∷ vs)))
act store_many dest option [] ns = err system_exit
act store_true dest option [] ns = ok (set_attr ns dest (flag true))
act store_true dest option (v ∷ vs) ns = err system_exit
act env dest option (v ∷ []) ns = env_action ns (str v) option
act env dest option _ ns = err system_exit
act env_many dest option (v ∷ vs) ns = env_action ns (words (v ∷ vs)) option
act env_many dest option [] ns = err system_exit

unfoldable pub find_spec : Text → List Spec → Option Spec
find_spec option [] = none
find_spec option (s ∷ specs) =
    if contains s.option_strings option then some s else find_spec option specs

unfoldable pub parse_known : List Spec → List Occurrence → Namespace → Result Namespace
unfolding act find_spec
parse_known specs [] ns = ok ns
parse_known specs (o ∷ os) ns = elim (find_spec o.option specs) [
  | none ↦ err system_exit
  | some s ↦ act s.action s.dest o.option o.values ns >>= parse_known specs os
]

-- The loop of `parse_args` over `_ns.sub_parser._actions`: an `EnvAction` that was not called is
-- called with its default.
abbrev pub is_env : Action → Bool
is_env env = true
is_env env_many = true
is_env _ = false

unfoldable pub call_default :
    List Text → Option Text → Action → Value → Namespace → Result Namespace
unfolding env_action
call_default (option ∷ _) (some key) a default ns =
    if is_env a && not (has_key key (env_of ns)) then env_action ns default option else ok ns
call_default (option ∷ _) none a default ns = ok ns
call_default [] key a default ns = ok ns

unfoldable pub add_env_default : Spec → Namespace → Result Namespace
unfolding env_dict_key call_default
add_env_default s ns =
    call_default s.option_strings (env_dict_key s.option_strings) s.action s.default ns

unfoldable pub add_env_defaults : List Spec → Namespace → Result Namespace
unfolding add_env_default
add_env_defaults [] ns = ok ns
add_env_defaults (s ∷ specs) ns = add_env_default s ns >>= add_env_defaults specs

abbrev pub with_env_dict : Namespace → Namespace
with_env_dict ns = record ns { env_dict = some (env_of ns) }

abbrev pub start_namespace : Command → Namespace
start_namespace c = record {
  command = c;
  attrs = map (λ s. (s.dest, s.default)) (actions c);
  env_dict = none;
}

-- `parse_args`. Without a sub-command the namespace has no `sub_parser`.
unfoldable pub parse_args : Option Command → List Occurrence → Result Namespace
unfolding parse_known add_env_defaults actions
parse_args none os = err attribute_error
parse_args (some c) os = do
  ns ← parse_known (actions c) os (start_namespace c)
  add_env_defaults (actions c) (with_env_dict ns)
