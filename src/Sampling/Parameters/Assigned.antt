-- ===== src/Sampling/Parameters/Assigned.antt =====
-- The parameters after a sampling has numbered and named them.
use crownet.Prelude.{
  ℕ, zero, suc, ◌+◌, ◌≡◌, ◌∙◌, refl, sym, ap, some, some_inj, List, [], ◌∷◌, ◌++◌, if◌then◌else◌,
  Text, text, list_eq, nat_eq, list_beq, decimal, decimal-injective, ◌≢◌, get_elem?, arith,
}
use crownet.Sampling.Parameters.{
  Parameter, assign_index_from, assign_parameter_index, assign_name,
  assign_parameter_name_if_missing,
}

module _ {F : Type 0} where
  -- What a parameter becomes at an index.
  abbrev pub at_index : ℕ → Parameter F → Parameter F
  at_index i p = record {
    distribution = p.distribution;
    index = i;
    name = if list_beq p.name [] then text "Parameter" ++ decimal i else p.name;
  }

  get_elem?-assign :
      (k i : ℕ) (ps : List (Parameter F)) (p : Parameter F)
      → get_elem? ps i ≡ some p
      → get_elem? (assign_parameter_name_if_missing (assign_index_from k ps)) i
        ≡ some (at_index (k + i) p)
  unfolding assign_parameter_name_if_missing assign_index_from assign_name
  get_elem?-assign k i [] p h = cc
  get_elem?-assign k zero (q ∷ ps) p h =
      ap (λ r. some (at_index k r)) (some_inj q p h) ∙ ap (λ m. some (at_index m p)) same
    where
      same : k ≡ k + 0
      same = omega arith
  get_elem?-assign k (suc i) (q ∷ ps) p h =
      get_elem?-assign (suc k) i ps p h ∙ ap (λ m. some (at_index m p)) same
    where
      same : suc k + i ≡ k + suc i
      same = omega arith

  name_at :
      (i : ℕ) (p : Parameter F) → p.name ≡ [] → (at_index i p).name ≡ text "Parameter" ++ decimal i
  name_at i p bare = rw bare refl

  -- A sampling numbers its parameters by their places and names those without a name after their
  -- numbers; each keeps its distribution and a name that it has, and two that had no name have
  -- different names afterwards.
  pub assigned_lem :
      (ps : List (Parameter F)) (i j : ℕ) (p q : Parameter F)
      → get_elem? ps i ≡ some p
      → get_elem? ps j ≡ some q
      → p.name ≡ []
      → q.name ≡ []
      → i ≢ j
      → (get_elem? (assign_parameter_name_if_missing (assign_parameter_index ps)) i
          ≡ some (at_index i p))
        × (get_elem? (assign_parameter_name_if_missing (assign_parameter_index ps)) j
            ≡ some (at_index j q))
        × ((at_index i p).name ≢ (at_index j q).name)
  unfolding assign_parameter_index
  assigned_lem ps i j p q at_i at_j bare_p bare_q apart = (
    get_elem?-assign 0 i ps p at_i ∙ ap (λ m. some (at_index m p)) (zero_add_lem i),
    get_elem?-assign 0 j ps q at_j ∙ ap (λ m. some (at_index m q)) (zero_add_lem j),
    λ same. apart (
        decimal-injective i j
          (tail (decimal i) (decimal j) (sym (name_at i p bare_p) ∙ (same ∙ name_at j q bare_q)))),
  )
    where
      zero_add_lem : (n : ℕ) → 0 + n ≡ n
      zero_add_lem n = omega arith

      tail : (s t : Text) → text "Parameter" ++ s ≡ text "Parameter" ++ t → s ≡ t
      tail s t h = cc
