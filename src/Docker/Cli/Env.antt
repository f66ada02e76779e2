-- ===== src/Docker/Cli/Env.antt =====
-- The environment while the options are parsed: the first value that is given for a key stays.
use crownet.Prelude.{
  ◌≡◌, ◌∙◌, sym, ap, Option, none, some, List, [], ◌∷◌, ◌++◌, Text, Result, ok, err, ◌>>=◌,
  returned, ok_inj, system_exit, lookup, or_else, or_else-none, or_else_assoc, lookup-append,
  lookup-set_default, set_default, list_eq, nat_eq, if◌then◌else◌,
}
use crownet.Docker.{Value, str, words}
use crownet.Docker.Cli.{
  Action, store, store_many, store_true, env, env_many, Spec, Namespace, Occurrence, env_of,
  env_pair, env_action, env_dict_key, act, find_spec, parse_known, is_env, set_attr,
}

abbrev pub pairs_of : Result (Text × Value) → List (Text × Value)
pairs_of (ok p) = p ∷ []
pairs_of (err e) = []

-- The pair that one recognised option stands for, if it is an option for the environment.
abbrev pub given_by : Action → Text → List Text → List (Text × Value)
given_by env option (v ∷ []) = pairs_of (env_pair option (str v))
given_by env_many option (v ∷ vs) = pairs_of (env_pair option (words (v ∷ vs)))
given_by _ option values = []

-- The pairs that the command line gives, in its order.
abbrev pub given : List Spec → List Occurrence → List (Text × Value)
given specs [] = []
given specs (o ∷ os) =
    (elim (find_spec o.option specs) [ none ↦ [] | some s ↦ given_by s.action o.option o.values ])
    ++ given specs os

-- The pairs of the options' defaults, in the order of the options.
abbrev pub default_pair : Spec → List (Text × Value)
default_pair s = elim (env_dict_key s.option_strings) [
  | none ↦ []
  | some key ↦ if is_env s.action then (key, s.default) ∷ [] else []
]

abbrev pub default_pairs : List Spec → List (Text × Value)
default_pairs [] = []
default_pairs (s ∷ specs) = default_pair s ++ default_pairs specs

module _ (k : Text) where
  -- A dict has grown by pairs whose keys it may have had before.
  abbrev pub Grown : Namespace → Namespace → List (Text × Value) → Type 0
  Grown ns ns' pairs = lookup k (env_of ns') ≡ or_else (lookup k (env_of ns)) (lookup k pairs)

  pub Grown-nil : (ns : Namespace) → Grown ns ns []
  Grown-nil ns = sym (or_else-none (lookup k (env_of ns)))

  pub Grown-append :
      (ns ns' end : Namespace) (pairs more : List (Text × Value))
      → Grown ns ns' pairs
      → Grown ns' end more
      → Grown ns end (pairs ++ more)
  Grown-append ns ns' end pairs more g h =
      h
      ∙ (ap (λ o. or_else o (lookup k more)) g
          ∙ (or_else_assoc (lookup k (env_of ns)) (lookup k pairs) (lookup k more)
              ∙ ap (or_else (lookup k (env_of ns))) (sym (lookup-append k pairs more))))

  pub env_action-Grown :
      (ns end : Namespace) (values : Value) (option : Text)
      → env_action ns values option ≡ ok end
      → Grown ns end (pairs_of (env_pair option values))
  unfolding env_action
  env_action-Grown ns end values option ran = go (env_pair option values) ran
    where
      go :
          (r : Result (Text × Value))
          → (r >>= λ p. ok (record ns { env_dict = some (set_default p.0 p.1 (env_of ns)) }))
            ≡ ok end
          → Grown ns end (pairs_of r)
      go (ok (key, val)) e = rw (← ok_inj _ end e) (lookup-set_default key k val (env_of ns))
      go (err x) e = cc

  act-Grown :
      (a : Action) (dest option : Text) (values : List Text) (ns end : Namespace)
      → act a dest option values ns ≡ ok end
      → Grown ns end (given_by a option values)
  unfolding act set_attr
  act-Grown store dest option (v ∷ []) ns end ran = rw (← ok_inj _ end ran) (Grown-nil ns)
  act-Grown store dest option (v ∷ w ∷ vs) ns end ran = cc
  act-Grown store dest option [] ns end ran = cc
  act-Grown store_many dest option (v ∷ vs) ns end ran = rw (← ok_inj _ end ran) (Grown-nil ns)
  act-Grown store_many dest option [] ns end ran = cc
  act-Grown store_true dest option [] ns end ran = rw (← ok_inj _ end ran) (Grown-nil ns)
  act-Grown store_true dest option (v ∷ vs) ns end ran = cc
  act-Grown env dest option (v ∷ []) ns end ran = env_action-Grown ns end (str v) option ran
  act-Grown env dest option (v ∷ w ∷ vs) ns end ran = cc
  act-Grown env dest option [] ns end ran = cc
  act-Grown env_many dest option (v ∷ vs) ns end ran =
      env_action-Grown ns end (words (v ∷ vs)) option ran
  act-Grown env_many dest option [] ns end ran = cc

  pub parse_known-Grown :
      (specs : List Spec) (os : List Occurrence) (ns end : Namespace)
      → parse_known specs os ns ≡ ok end
      → Grown ns end (given specs os)
  unfolding parse_known
  parse_known-Grown specs [] ns end ran = rw (← ok_inj _ end ran) (Grown-nil ns)
  parse_known-Grown specs (o ∷ os) ns end ran =
      known (find_spec o.option specs) (parse_known-Grown specs os) ran
    where
      known :
          (found : Option Spec)
          → ((ns end : Namespace)
              → parse_known specs os ns ≡ ok end
              → Grown ns end (given specs os))
          → (elim found [
            | none ↦ err system_exit
            | some s ↦ act s.action s.dest o.option o.values ns >>= parse_known specs os
          ])
            ≡ ok end
          → Grown ns end (
              (elim found [ none ↦ [] | some s ↦ given_by s.action o.option o.values ])
              ++ given specs os)
      known none later h = cc
      known (some s) later h =
          let (mid, acted, went) =
            returned (act s.action s.dest o.option o.values ns) (parse_known specs os) end h in
          Grown-append ns mid end (given_by s.action o.option o.values) (given specs os)
            (act-Grown s.action s.dest o.option o.values ns mid acted) (later mid end went)
