-- ===== src/Study.antt =====
-- cmp_vadere_sumo/study/study.py: a study that runs each configuration, analyses its simulations and
-- keeps the results in files. pandas, the simulations' data and the runner of suqc are parameters; what
-- is printed and drawn is left out.
pub mod Groups
pub mod Agree
pub mod Parallel
pub mod Memory
pub mod Retries
pub mod Main
pub mod Readable
pub mod Parts
pub mod Resume
pub mod Paths
pub mod Ends
pub mod Calls
pub mod Kept
pub mod Restart
pub mod Tests
use crownet.Prelude.{
  ℕ, zero, suc, ◌+◌, ◌*◌, ltb, Bool, true, false, Option, none, some, List, [], ◌∷◌, ◌++◌, map,
  if◌then◌else◌, Text, text, list_eq, nat_eq, has_key, lookup, put, set_default, Result, ok, err,
  Exception, key_error, index_error, ◌>>=◌, ◌>>◌,
}

-- What pandas and crownetutils do with frames and the data of a simulation.
pub record Tools : Type 1 where
  pub Frame : Type 0
  pub empty : Frame
  pub is_empty : Frame → Bool
  -- `pd.concat(frames)`
  pub concat : List Frame → Frame
  -- `pd.concat({key: frame}, names=[name])`
  pub keyed : Text → Text → Frame → Frame
  -- The outer merge of the vectors of two modules, sorted, and of two tables on their indices.
  pub merge_vectors : Frame → Frame → Frame
  pub merge_index : Frame → Frame → Frame
  -- Statistics for each value of the parameter, of a frame that has this level.
  pub aggregate : Frame → Result Frame
  -- `pd.concat(..., ignore_index=True)`, and the column of a scalar under its own name.
  pub append_rows : Frame → Frame → Frame
  pub scalar_column : Text → Frame → Frame
  pub Sim : Type 0
  pub label : Sim → Text
  -- The values that `read_parameters` finds for a module and a name.
  pub read_parameters : Sim → Text → Text → List Text
  pub vec_data_pivot : Sim → Text → List (Text × Text) → Result Frame
  pub sca_data : Sim → Text → Text → Result Frame
  -- Which of the failures for a value of a configuration is the first that the pool gets to know.
  pub arrival : Text → Text → ℕ

-- A dict of modules with their names.
abbrev pub Names : Type 0
Names = List (Text × List Text)

-- The results in the order of the arguments, or the first exception in this order.
abbrev pub in_order : {A B : Type 0} → (A → Result B) → List A → Result (List B)
in_order f [] = ok []
in_order f (a ∷ args) = do b ← f a; bs ← in_order f args; ok (b ∷ bs)

-- The exceptions of all calls, and the one with a number among them.
abbrev pub failures : {A B : Type 0} → (A → Result B) → List A → List Exception
failures f [] = []
failures f (a ∷ args) =
    let rest = failures f args in elim (f a) [ ok b ↦ rest | err raised ↦ raised ∷ rest ]

abbrev pub arrived : ℕ → List Exception → Exception → Exception
arrived n [] first = first
arrived zero (e ∷ es) first = e
arrived (suc n) (e ∷ es) first = arrived n es first

-- `p.starmap`: the results in the order of the arguments, or the exception that arrives first, which may
-- be that of any call that fails.
unfoldable pub starmap : {A B : Type 0} → ℕ → (A → Result B) → List A → Result (List B)
starmap n f args = elim (in_order f args) [
  | ok results ↦ ok results
  | err first ↦ err (arrived n (failures f args) first)
]

module _ (T : Tools) where
  open T use {Frame, Sim}

  -- `d.setdefault(value, []).append(sim)`, which the code writes as two steps.
  abbrev pub add_sim : Text → Sim → List (Text × List Sim) → List (Text × List Sim)
  add_sim value sim d =
      let known = set_default value [] d in
      elim (lookup value known) [ none ↦ known | some sims ↦ put value (sims ++ (sim ∷ [])) known ]

  abbrev pub group_loop :
      Text → Text → List Sim → List (Text × List Sim) → Result (List (Text × List Sim))
  group_loop module_name name [] d = ok d
  group_loop module_name name (sim ∷ sims) d = elim (T.read_parameters sim module_name name) [
    | [] ↦ err key_error
    | value ∷ values ↦ group_loop module_name name sims (add_sim value sim d)
  ]

  unfoldable pub get_parameter_to_sims : List Sim → Text → Text → Result (List (Text × List Sim))
  get_parameter_to_sims simulations module_name name = group_loop module_name name simulations []

  unfoldable pub get_vector_names : List Text → List (Text × Text)
  get_vector_names names = map (λ name. (name ++ text ":vector", name)) names

  unfoldable pub retrieve_vector_data : Sim → Frame → Names → Result Frame
  unfolding get_vector_names
  retrieve_vector_data sim found [] = ok found
  retrieve_vector_data sim found ((vector_module, names) ∷ vectors) = do
    vec_data ← T.vec_data_pivot sim vector_module (get_vector_names names)
    retrieve_vector_data sim (if T.is_empty found then vec_data else T.merge_vectors found vec_data)
        vectors

  -- The loops of `_retrieve_scalar_data` over the modules and over the names of each.
  abbrev scalars_of : Sim → Frame → Text → List Text → Result Frame
  scalars_of sim found scalar_module [] = ok found
  scalars_of sim found scalar_module (name ∷ names) = do
    sca_data ← T.sca_data sim scalar_module name
    scalars_of sim
        (if T.is_empty found
          then T.scalar_column name sca_data
          else T.append_rows found (T.scalar_column name sca_data))
        scalar_module names

  unfoldable pub retrieve_scalar_data : Sim → Frame → Names → Result Frame
  retrieve_scalar_data sim found [] = ok found
  retrieve_scalar_data sim found ((scalar_module, names) ∷ scalars) =
      scalars_of sim found scalar_module names >>= λ more. retrieve_scalar_data sim more scalars

  -- `_analyze_singe_simulation`; SqlEmptyResult is printed and raised again.
  unfoldable pub analyze_singe_simulation : Names → Names → Text → Sim → Result (Frame × Frame)
  unfolding retrieve_vector_data retrieve_scalar_data
  analyze_singe_simulation vectors scalars value sim = do
    vec_data ← retrieve_vector_data sim T.empty vectors
    sca_data ← retrieve_scalar_data sim T.empty scalars
    ok (
      T.keyed (text "param") value (T.keyed (text "run_label") (T.label sim) vec_data),
      T.keyed (text "param") value (T.keyed (text "run_label") (T.label sim) sca_data),
    )

  -- `pd.concat` of the frames, of which there is at least one: `list(zip(*[]))` has no item.
  abbrev pub joined : List (Frame × Frame) → Result (Frame × Frame)
  joined [] = err index_error
  joined (r ∷ rs) = ok (T.concat (map (λ q. q.0) (r ∷ rs)), T.concat (map (λ q. q.1) (r ∷ rs)))

  -- Frames behind frames.
  abbrev pub extended : Frame × Frame → Frame × Frame → Frame × Frame
  extended dfs new = (T.concat (dfs.0 ∷ new.0 ∷ []), T.concat (dfs.1 ∷ new.1 ∷ []))

  module _ (analyze : Text → Sim → Result (Frame × Frame)) where
    -- The two loops of `analyze_parameter_study`, with a pool of processes and without.
    unfoldable pub with_pool :
        (Text → ℕ) → List (Text × List Sim) → Frame × Frame → Result (Frame × Frame)
    unfolding starmap
    with_pool arrival [] dfs = ok dfs
    with_pool arrival ((value, sims) ∷ groups) dfs = do
      vec_sca_data ← starmap (arrival value) (analyze value) sims
      new ← joined vec_sca_data
      with_pool arrival groups (extended dfs new)

    abbrev pub one_by_one : Text → List Sim → Frame × Frame → Result (Frame × Frame)
    one_by_one value [] dfs = ok dfs
    one_by_one value (sim ∷ sims) dfs =
        analyze value sim >>= λ new. one_by_one value sims (extended dfs new)

    unfoldable pub without_pool : List (Text × List Sim) → Frame × Frame → Result (Frame × Frame)
    without_pool [] dfs = ok dfs
    without_pool ((value, sims) ∷ groups) dfs =
        one_by_one value sims dfs >>= λ more. without_pool groups more

  -- The statistics over all runs, under the configuration, and no averages over time.
  abbrev pub statistics : Text → Frame × Frame → Result (Frame × Option Frame)
  statistics config dfs = do
    vectors ← T.aggregate dfs.0
    scalars ← T.aggregate dfs.1
    ok (T.keyed (text "config") config (T.merge_index vectors scalars), none)

  -- `analyze_parameter_study` for a number of processes, of which the code has 10.
  unfoldable pub analyze_parameter_study :
      ℕ → List Sim → Text → Text × Text → Names → Names → Result (Frame × Option Frame)
  unfolding get_parameter_to_sims analyze_singe_simulation with_pool without_pool
  analyze_parameter_study processes simulations config var_parameter vectors scalars = do
    par_to_sims ← get_parameter_to_sims simulations var_parameter.0 var_parameter.1
    dfs ←
        if ltb 1 processes
        then with_pool (analyze_singe_simulation vectors scalars) (T.arrival config) par_to_sims
            (T.empty, T.empty)
        else without_pool (analyze_singe_simulation vectors scalars) par_to_sims (T.empty, T.empty)
    statistics config dfs
