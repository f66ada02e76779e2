-- ===== src/Docker/Cli/Defaults.antt =====
-- The environment after `parse_args`: what was given, then the defaults of the options.
use crownet.Prelude.{
  ◌≡◌, refl, Bool, true, false, Option, none, some, List, [], ◌∷◌, ◌++◌, Text, text, Result, ok,
  err, arith, returned, ok_inj, lookup, has_key, lookup-has_key, ◌&&◌, not, set_default, list_eq,
  nat_eq, list_beq, starts_with, if◌then◌else◌, Bool-cases, inl, inr, has_key,
}
use mathlib.Core.Path.{subst}
use crownet.Docker.{Command, Value}
use crownet.Docker.Cli.{
  Action, Spec, Namespace, Occurrence, env_of, actions, env_pair, env_action, env_dict_key, env_key,
  call_default, parse_known, is_env, add_env_default, add_env_defaults, parse_args, with_env_dict,
  start_namespace,
}
use crownet.Docker.Cli.Env.{
  pairs_of, given, default_pair, default_pairs, Grown, Grown-nil, Grown-append, env_action-Grown,
  parse_known-Grown,
}

-- The pair that `EnvAction` makes of a default has the key of the action.
env_pair-default :
    (option key : Text) (v : Value)
    → (if list_beq option (text "--env")
        then none
        else if starts_with option (text "--")
        then some (env_key option)
        else none)
      ≡ some key
    → env_pair option v ≡ ok (key, v)
unfolding env_pair
env_pair-default option key v named = elim (Bool-cases (list_beq option (text "--env"))) [
  | inl plain ↦ ground (arith, plain)
  | inr special ↦ elim (Bool-cases (starts_with option (text "--"))) [
    | inl long ↦ ground (arith, special, long)
    | inr short ↦ ground (arith, special, short)
  ]
]

module _ (k : Text) where
  call_default-Grown :
      (names : List Text) (key : Option Text) (a : Action) (v : Value) (ns end : Namespace)
      → env_dict_key names ≡ key
      → call_default names key a v ns ≡ ok end
      → Grown k ns end (elim key [ none ↦ [] | some j ↦ if is_env a then (j, v) ∷ [] else [] ])
  unfolding call_default env_dict_key
  call_default-Grown [] none a v ns end named ran = rw (← ok_inj _ end ran) (Grown-nil k ns)
  call_default-Grown [] (some j) a v ns end named ran = cc
  call_default-Grown (option ∷ names) none a v ns end named ran =
      rw (← ok_inj _ end ran) (Grown-nil k ns)
  call_default-Grown (option ∷ names) (some j) a v ns end named ran =
      called (is_env a) (has_key j (env_of ns)) refl ran
    where
      made :
          (r : Result (Text × Value))
          → r ≡ ok (j, v)
          → Grown k ns end (pairs_of r)
          → Grown k ns end ((j, v) ∷ [])
      made (ok p) same g = subst (λ q. Grown k ns end (q ∷ [])) (ok_inj p (j, v) same) g
      made (err x) same g = cc

      called :
          (mine old : Bool)
          → has_key j (env_of ns) ≡ old
          → (if mine && not old then env_action ns v option else ok ns) ≡ ok end
          → Grown k ns end (if mine then (j, v) ∷ [] else [])
      called false old there e = rw (← ok_inj _ end e) (Grown-nil k ns)
      called true true there e = rw (← ok_inj _ end e) (lookup-has_key j k v (env_of ns) there)
      called true false there e =
          made (env_pair option v) (env_pair-default option j v named)
            (env_action-Grown k ns end v option e)

  add_env_defaults-Grown :
      (specs : List Spec) (ns end : Namespace)
      → add_env_defaults specs ns ≡ ok end
      → Grown k ns end (default_pairs specs)
  unfolding add_env_defaults add_env_default
  add_env_defaults-Grown [] ns end ran = rw (← ok_inj _ end ran) (Grown-nil k ns)
  add_env_defaults-Grown (s ∷ specs) ns end ran =
      let (mid, called, went) = returned (add_env_default s ns) (add_env_defaults specs) end ran in
      Grown-append k ns mid end (default_pair s) (default_pairs specs)
        (call_default-Grown s.option_strings (env_dict_key s.option_strings) s.action s.default ns
          mid refl called)
        (add_env_defaults-Grown specs mid end went)

-- A default never raises: its option's spelling starts with two dashes and is not `--env`.
env_action_default_ok :
    (option j : Text) (v : Value) (ns : Namespace)
    → env_pair option v ≡ ok (j, v)
    → (end : Namespace) × (env_action ns v option ≡ ok end)
unfolding env_action
env_action_default_ok option j v ns pair =
    (record ns { env_dict = some (set_default j v (env_of ns)) }, rw pair refl)

call_default_ok :
    (names : List Text) (key : Option Text) (a : Action) (v : Value) (ns : Namespace)
    → env_dict_key names ≡ key
    → (end : Namespace) × (call_default names key a v ns ≡ ok end)
unfolding call_default env_dict_key
call_default_ok [] key a v ns named = (ns, refl)
call_default_ok (option ∷ names) none a v ns named = (ns, refl)
call_default_ok (option ∷ names) (some j) a v ns named =
    called (is_env a && not (has_key j (env_of ns)))
  where
    called :
        (b : Bool) → (end : Namespace) × ((if b then env_action ns v option else ok ns) ≡ ok end)
    called true = env_action_default_ok option j v ns (env_pair-default option j v named)
    called false = (ns, refl)

add_env_defaults_ok :
    (specs : List Spec) (ns : Namespace) → (end : Namespace) × (add_env_defaults specs ns ≡ ok end)
unfolding add_env_defaults add_env_default
add_env_defaults_ok [] ns = (ns, refl)
add_env_defaults_ok (s ∷ specs) ns =
    let (mid, called) =
      call_default_ok s.option_strings (env_dict_key s.option_strings) s.action s.default ns refl in
    let (end, rest) = add_env_defaults_ok specs mid in (end, rw called rest)

-- Once `argparse` has accepted the options of a sub-command, `parse_args` returns. The environment
-- of its namespace then has, for each name, the first value that the command line gives it, by
-- `--env` or by an option of its own; where there is none, the default of the option whose name it
-- is; and no other names.
pub parse_args-first :
    (c : Command) (os : List Occurrence) (mid : Namespace)
    → parse_known (actions c) os (start_namespace c) ≡ ok mid
    → (ns : Namespace) × (parse_args (some c) os ≡ ok ns)
      × ((k : Text)
          → lookup k (env_of ns) ≡ lookup k (given (actions c) os ++ default_pairs (actions c)))
unfolding parse_args
parse_args-first c os mid parsed =
    let (ns, filled) = add_env_defaults_ok (actions c) (with_env_dict mid) in
    (
      ns,
      rw parsed filled,
      λ k.
          Grown-append k (start_namespace c) mid ns (given (actions c) os)
            (default_pairs (actions c))
            (parse_known-Grown k (actions c) os (start_namespace c) mid parsed)
            (add_env_defaults-Grown k (actions c) (with_env_dict mid) ns filled),
    )
