-- ===== src/Trace/Update/Sorted.antt =====
-- The dict that `dict_by_id` makes of the steps.
use mathlib.Core.List.{append_assoc, append-nil}
use mathlib.Core.Option
use crownet.Prelude.{
  ℕ, ◌≡◌, ◌∙◌, refl, sym, ap, Bool, true, false, ◌||◌, Option, none, some, List, [], ◌∷◌, ◌++◌, map,
  filter, if◌then◌else◌, list_eq, nat_eq, lookup, has_key, has_key-some, put, lookup-put, contains,
  sort, contains-map-sort, ◌==◌, ==_iff, beq_self, ok, arith,
}
use crownet.Floats.{Floats}
use crownet.Trace.Seek.{BmSumoStep}
use crownet.Trace.Update.{Steps, id_of, empty_lists, append_steps, dict_by_id}

module _ (R : Floats) (sumo_ids : Bool) where
  -- The steps with an id, in their order.
  abbrev pub steps_of : ℕ → List (BmSumoStep R.F) → List (BmSumoStep R.F)
  steps_of k steps = filter (λ s. k == id_of R sumo_ids s) steps

  lookup-empty_lists :
      (k : ℕ) (steps : List (BmSumoStep R.F)) (ret : Steps R)
      → lookup k (empty_lists R sumo_ids steps ret)
        ≡ (if contains (map (id_of R sumo_ids) steps) k then some [] else lookup k ret)
  unfolding empty_lists
  lookup-empty_lists k [] ret = refl
  lookup-empty_lists k (s ∷ steps) ret =
      lookup-empty_lists k steps (put (id_of R sumo_ids s) [] ret)
      ∙ ground (arith, lookup-put (id_of R sumo_ids s) k [] ret)

  -- Every step has a list.
  abbrev Listed : List (BmSumoStep R.F) → Steps R → Type 0
  Listed [] ret = Unit
  Listed (s ∷ steps) ret = (has_key (id_of R sumo_ids s) ret ≡ true) × Listed steps ret

  Listed-put :
      (k : ℕ) (l : List (BmSumoStep R.F)) (steps : List (BmSumoStep R.F)) (ret : Steps R)
      → Listed steps ret
      → Listed steps (put k l ret)
  Listed-put k l [] ret all = tt
  Listed-put k l (s ∷ steps) ret (here, all) =
      (ground (arith, here, lookup-put k (id_of R sumo_ids s) l ret), Listed-put k l steps ret all)

  map_append_nil : (o : Option (List (BmSumoStep R.F))) → o ≡ Option.map (λ l. l ++ []) o
  map_append_nil none = refl
  map_append_nil (some l) = ap some (sym (append-nil l))

  -- One step more, put under its id.
  one_more :
      (k : ℕ) (s : BmSumoStep R.F) (steps l : List (BmSumoStep R.F)) (ret : Steps R)
      → lookup (id_of R sumo_ids s) ret ≡ some l
      → Option.map
          (λ l. l ++ steps_of k steps)
          (lookup k (put (id_of R sumo_ids s) (l ++ (s ∷ [])) ret))
        ≡ Option.map (λ l. l ++ steps_of k (s ∷ steps)) (lookup k ret)
  one_more k s steps l ret under =
      rw (lookup-put (id_of R sumo_ids s) k (l ++ (s ∷ [])) ret) (go (k == id_of R sumo_ids s) refl)
    where
      go :
          (b : Bool)
          → (k == id_of R sumo_ids s) ≡ b
          → Option.map
              (λ l. l ++ steps_of k steps)
              (if b then some (l ++ (s ∷ [])) else lookup k ret)
            ≡ Option.map
                (λ l. l ++ (if b then s ∷ steps_of k steps else steps_of k steps))
                (lookup k ret)
      go true same =
          let found : lookup k ret ≡ some l =
            ap (λ j. lookup j ret) ((==_iff k (id_of R sumo_ids s)).0 same) ∙ under in
          rw found (ap some (append_assoc l (s ∷ []) (steps_of k steps)))
      go false other = refl

  append_steps_lem :
      (steps : List (BmSumoStep R.F)) (ret : Steps R)
      → Listed steps ret
      → (after : Steps R) × (append_steps R sumo_ids steps ret ≡ ok after)
        × ((k : ℕ) → lookup k after ≡ Option.map (λ l. l ++ steps_of k steps) (lookup k ret))
  unfolding append_steps
  append_steps_lem [] ret all = (ret, refl, λ k. map_append_nil (lookup k ret))
  append_steps_lem (s ∷ steps) ret (here, all) =
      let (l, under) = has_key-some (id_of R sumo_ids s) ret here in
      let (after, made, found) =
        append_steps_lem steps (put (id_of R sumo_ids s) (l ++ (s ∷ [])) ret)
          (Listed-put (id_of R sumo_ids s) (l ++ (s ∷ [])) steps ret all) in
      (after, rw under made, λ k. found k ∙ one_more k s steps l ret under)

  Listed-lookup :
      (steps : List (BmSumoStep R.F)) (ret : Steps R)
      → ((k : ℕ) → contains (map (id_of R sumo_ids) steps) k ≡ true → has_key k ret ≡ true)
      → Listed steps ret
  Listed-lookup [] ret all = tt
  Listed-lookup (s ∷ steps) ret all = (
    all (id_of R sumo_ids s) (rw (beq_self (id_of R sumo_ids s)) refl),
    Listed-lookup steps ret λ k there.
        all k (later (k == id_of R sumo_ids s) (contains (map (id_of R sumo_ids) steps) k) there),
  )
    where
      later : (b c : Bool) → c ≡ true → (b || c) ≡ true
      later b c h = ground (arith, h)

  -- The steps by time, steps with the same time in the order that they had.
  abbrev pub by_time : List (BmSumoStep R.F) → List (BmSumoStep R.F)
  by_time steps = sort (λ s t. R.lt s.time t.time) steps

  -- `dict_by_id` returns, and the dict has, for each id that a step has, the steps with that id in
  -- the order of their times, and for no other id an entry.
  pub dict_by_id_lem :
      (steps : List (BmSumoStep R.F))
      → (after : Steps R) × (dict_by_id R steps sumo_ids ≡ ok after)
        × ((k : ℕ)
            → lookup k after ≡ (
                if contains (map (id_of R sumo_ids) steps) k
                then some (steps_of k (by_time steps))
                else none))
  unfolding dict_by_id
  dict_by_id_lem steps =
      let (after, made, found) =
        append_steps_lem (by_time steps) (empty_lists R sumo_ids steps [])
          (Listed-lookup (by_time steps) (empty_lists R sumo_ids steps []) started) in
      (
        after,
        made,
        λ k.
            found k
            ∙ (ap (Option.map (λ l. l ++ steps_of k (by_time steps)))
                  (lookup-empty_lists k steps [])
                ∙ all_of k (contains (map (id_of R sumo_ids) steps) k)),
      )
    where
      started :
          (k : ℕ)
          → contains (map (id_of R sumo_ids) (by_time steps)) k ≡ true
          → has_key k (empty_lists R sumo_ids steps []) ≡ true
      started k there =
          rw
            (
              lookup-empty_lists k steps [],
              sym (contains-map-sort (λ s t. R.lt s.time t.time) (id_of R sumo_ids) steps k)
                  ∙ there,
              has_key,
            )
            refl

      all_of :
          (k : ℕ) (b : Bool)
          → Option.map (λ l. l ++ steps_of k (by_time steps)) (if b then some [] else none)
            ≡ (if b then some (steps_of k (by_time steps)) else none)
      all_of k true = refl
      all_of k false = refl
