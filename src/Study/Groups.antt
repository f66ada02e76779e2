-- ===== src/Study/Groups.antt =====
-- study.py: `get_parameter_to_sims` groups the simulations by the value of a parameter.
use mathlib.Core.List.{append_assoc, append-nil}
use crownet.Prelude.{
  ◌≡◌, ◌∙◌, refl, sym, inl, inr, false, Bool-cases, Option, none, some, List, [], ◌∷◌, ◌++◌, filter,
  if◌then◌else◌, Text, list_eq, nat_eq, list_beq, list_beq_iff, or_else-none, beq_self, Eq, has_key,
  lookup, put, set_default, or_else, lookup-put, lookup-set_default, Unique, Unique-put, ok, arith,
}
use crownet.Study.{Tools, add_sim, group_loop, get_parameter_to_sims}

-- A list under a key, if it has an item.
abbrev pub found : {A : Type 0} → List A → Option (List A)
found [] = none
found (x ∷ xs) = some (x ∷ xs)

-- More items under a key.
abbrev more : {A : Type 0} → Option (List A) → List A → Option (List A)
more none xs = found xs
more (some ys) xs = some (ys ++ xs)

more-found :
    {A : Type 0} (o : Option (List A)) (x : A) (xs : List A)
    → more (more o (x ∷ [])) xs ≡ more o (x ∷ xs)
more-found none x xs = refl
more-found (some ys) x xs = rw (append_assoc ys (x ∷ []) xs) refl

more_nothing : {A : Type 0} (o : Option (List A)) → more o [] ≡ o
more_nothing none = refl
more_nothing (some ys) = rw (append-nil ys) refl

module _ {K V : Type 0} ⦃e : Eq K⦄ where
  put-new :
      (k : K) (v : V) (d : List (K × V)) → has_key k d ≡ false → d ++ ((k, v) ∷ []) ≡ put k v d
  put-new k v [] h = refl
  put-new k v ((j, w) ∷ d) h = ground (arith, h, put-new k v d)

  Unique-set_default : (k : K) (v : V) (d : List (K × V)) → Unique d → Unique (set_default k v d)
  Unique-set_default k v d u = elim (Bool-cases (has_key k d)) [
    | inl old ↦ rw (old, set_default) u
    | inr new ↦ rw (new, set_default, put-new k v d new) (Unique-put k v d u)
  ]

module _ (T : Tools) where
  open T use {Sim}

  -- What a key has so far.
  abbrev so_far : Option (List Sim) → List Sim
  so_far none = []
  so_far (some sims) = sims

  lookup-known :
      (value : Text) (d : List (Text × List Sim))
      → lookup value (set_default value [] d) ≡ some (so_far (lookup value d))
  lookup-known value d = lookup-set_default value value [] d ∙ go (lookup value d)
    where
      go :
          (o : Option (List Sim))
          → or_else o (if list_beq value value then some [] else none) ≡ some (so_far o)
      go none = rw (beq_self value) refl
      go (some sims) = refl

  add_sim_lem :
      (value : Text) (sim : Sim) (d : List (Text × List Sim))
      → add_sim T value sim d
        ≡ put value (so_far (lookup value d) ++ (sim ∷ [])) (set_default value [] d)
  add_sim_lem value sim d = rw (lookup-known value d, add_sim) refl

  lookup-add_sim :
      (value v : Text) (sim : Sim) (d : List (Text × List Sim))
      → lookup v (add_sim T value sim d)
        ≡ (if list_beq v value then more (lookup v d) (sim ∷ []) else lookup v d)
  lookup-add_sim value v sim d = rw (add_sim_lem value sim d) (
      lookup-put value v (so_far (lookup value d) ++ (sim ∷ [])) (set_default value [] d)
      ∙ elim (Bool-cases (list_beq v value)) [
        | inl same ↦
            let eq : v ≡ value = (list_beq_iff v value).0 same in
            rw (same, eq) (here (lookup value d))
        | inr other ↦
            rw other (lookup-set_default value v [] d ∙ rw other (or_else-none (lookup v d)))
      ])
    where
      here : (o : Option (List Sim)) → some (so_far o ++ (sim ∷ [])) ≡ more o (sim ∷ [])
      here none = refl
      here (some sims) = refl

  Unique-add_sim :
      (value : Text) (sim : Sim) (d : List (Text × List Sim))
      → Unique d
      → Unique (add_sim T value sim d)
  Unique-add_sim value sim d u = rw (add_sim_lem value sim d) (
      Unique-put value (so_far (lookup value d) ++ (sim ∷ [])) (set_default value [] d)
        (Unique-set_default value [] d u))

  module _ (module_name name : Text) (value : Sim → Text)
      (reads : (sim : Sim)
        → (rest : List Text) × (T.read_parameters sim module_name name ≡ value sim ∷ rest)) where
    -- The simulations of a value.
    abbrev pub with_value : Text → List Sim → List Sim
    with_value v = filter (λ sim. list_beq v (value sim))

    group_loop_lem :
        (sims : List Sim) (d : List (Text × List Sim))
        → Unique d
        → (groups : List (Text × List Sim)) × (group_loop T module_name name sims d ≡ ok groups)
          × Unique groups
          × ((v : Text) → lookup v groups ≡ more (lookup v d) (with_value v sims))
    group_loop_lem [] d u = (d, refl, u, λ v. sym (more_nothing (lookup v d)))
    group_loop_lem (sim ∷ sims) d u =
        let (groups, grouped, unique, all) =
          group_loop_lem sims (add_sim T (value sim) sim d) (Unique-add_sim (value sim) sim d u) in
        (groups, rw ((reads sim).1, group_loop) grouped, unique, λ v. all v ∙ step v)
      where
        step :
            (v : Text)
            → more (lookup v (add_sim T (value sim) sim d)) (with_value v sims)
              ≡ more (lookup v d) (with_value v (sim ∷ sims))
        step v =
            rw (lookup-add_sim (value sim) v sim d) (elim (Bool-cases (list_beq v (value sim))) [
              | inl same ↦ rw same (more-found (lookup v d) sim (with_value v sims))
              | inr other ↦ rw other refl
            ])

    -- If the parameter can be read from every simulation, `get_parameter_to_sims` returns a dict with
    -- one entry for each value that occurs: the simulations of this value, in their order.
    pub get_parameter_to_sims-filter :
        (sims : List Sim)
        → (groups : List (Text × List Sim)) × (get_parameter_to_sims T sims module_name name
            ≡ ok groups)
          × Unique groups
          × ((v : Text) → lookup v groups ≡ found (with_value v sims))
    unfolding get_parameter_to_sims
    get_parameter_to_sims-filter sims = group_loop_lem sims [] tt
