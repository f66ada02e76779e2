-- ===== src/Docker/Client/Names.antt =====
-- The name that `check_create_name` finds.
use crownet.Prelude.{
  ℕ, zero, suc, ◌+◌, ◌<◌, ◌≤◌, ◌≡◌, ◌≢◌, refl, sym, ap, Bool, true, false, List, [], ◌∷◌, ◌++◌,
  Text, contains, IsSetList, length, length-le_of_subset, decimal, decimal-injective,
  decimal-ne_nil, ok, arith, Bool-cases, inl, inr, list_eq, nat_eq, list_beq_iff, ◌⊎◌, list_beq,
  ◌||◌, ℕ_discrete,
}
use crownet.Docker.Client.{name_loop, check_create_name}

module _ (base : Text) where
  -- The names that the loop tries: the name itself, then the name with 0, 1, ... after it.
  abbrev pub candidate : ℕ → Text
  candidate zero = base
  candidate (suc i) = base ++ decimal i

  candidates : ℕ → ℕ → List Text
  candidates i zero = []
  candidates i (suc n) = candidate i ∷ candidates (suc i) n

append_left_cancel : (base x y : Text) → base ++ x ≡ base ++ y → x ≡ y
append_left_cancel [] x y h = h
append_left_cancel (c ∷ base) x y h = append_left_cancel base x y cc

append_left_nil : (base x : Text) → base ≡ base ++ x → [] ≡ x
append_left_nil [] x h = h
append_left_nil (c ∷ base) x h = append_left_nil base x cc

module _ (base : Text) where
  candidate-ne : (i j : ℕ) → i < j → candidate base i ≢ candidate base j
  candidate-ne i zero h same = elim h [ ]
  candidate-ne zero (suc j) h same = decimal-ne_nil j (sym (append_left_nil base (decimal j) same))
  candidate-ne (suc i) (suc j) h same =
      let number : i ≡ j =
        decimal-injective i j (append_left_cancel base (decimal i) (decimal j) same) in
      omega arith

  candidate_beq : (i j : ℕ) → i < j → list_beq (candidate base i) (candidate base j) ≡ false
  candidate_beq i j h = elim (Bool-cases (list_beq (candidate base i) (candidate base j))) [
    | inl same ↦
        elim (candidate-ne i j h ((list_beq_iff (candidate base i) (candidate base j)).0 same)) [ ]
    | inr other ↦ other
  ]

  contains-candidates :
      (i j n : ℕ) → i < j → contains (candidates base j n) (candidate base i) ≡ false
  unfolding candidates
  contains-candidates i j zero h = refl
  contains-candidates i j (suc n) h =
      rw (candidate_beq i j h) (contains-candidates i (suc j) n (omega arith))

  candidates-IsSetList : (i n : ℕ) → IsSetList (candidates base i n)
  unfolding candidates
  candidates-IsSetList i zero = tt
  candidates-IsSetList i (suc n) =
      (contains-candidates i (suc i) n (omega arith), candidates-IsSetList (suc i) n)

  length-candidates : (i n : ℕ) → length (candidates base i n) ≡ n
  unfolding candidates
  length-candidates i zero = refl
  length-candidates i (suc n) = ap suc (length-candidates (suc i) n)

module _ (names : List Text) (base : Text) where
  -- The first name, from number `i` on, that is not in use.
  abbrev pub FirstFree : ℕ → ℕ → Text → Type 0
  FirstFree i k name =
      (name ≡ candidate base k)
      × (contains names name ≡ false)
      × ((j : ℕ) → i ≤ j → j < k → contains names (candidate base j) ≡ true)

  contains-candidates_used :
      (i n : ℕ)
      → ((j : ℕ) → i ≤ j → j < i + n → contains names (candidate base j) ≡ true)
      → (name : Text) → contains (candidates base i n) name ≡ true
      → contains names name ≡ true
  unfolding candidates
  contains-candidates_used i zero used name h = cc
  contains-candidates_used i (suc n) used name h =
      elim (Bool-cases (list_beq name (candidate base i))) [
        | inl same ↦
            let eq : name ≡ candidate base i = (list_beq_iff name (candidate base i)).0 same in
            rw eq (used i (omega arith) (omega arith))
        | inr other ↦
            contains-candidates_used (suc i) n (λ j l u. used j (omega arith) (omega arith)) name
              (rest (list_beq name (candidate base i)) other h)
      ]
    where
      rest :
          (b : Bool)
          → b ≡ false
          → (b || contains (candidates base (suc i) n) name) ≡ true
          → contains (candidates base (suc i) n) name ≡ true
      rest true e m = cc
      rest false e m = m

  -- Not all of the first names are in use if they are more than the names in use.
  some_free :
      (n : ℕ)
      → length names < n
      → ((j : ℕ) → 0 ≤ j → j < 0 + n → contains names (candidate base j) ≡ true)
      → ⊥
  some_free n more used =
      let few : length (candidates base 0 n) ≤ length names =
        length-le_of_subset (candidates base 0 n) names (candidates-IsSetList base 0 n)
          (contains-candidates_used 0 n used) in
      omega (arith, length-candidates base 0 n)

  name_loop-FirstFree :
      (fuel i : ℕ)
      → ((k : ℕ) × (name : Text) × (name_loop names base fuel (candidate base i) i ≡ ok name)
          × FirstFree i k name)
        ⊎ ((j : ℕ) → i ≤ j → j < i + fuel → contains names (candidate base j) ≡ true)
  unfolding name_loop
  name_loop-FirstFree zero i = inr λ j l u. ground arith
  name_loop-FirstFree (suc fuel) i = elim (Bool-cases (contains names (candidate base i))) [
    | inr free ↦
        inl (i, candidate base i, rw (free, name_loop) refl, (refl, free, λ j l u. ground arith))
    | inl taken ↦ elim (name_loop-FirstFree fuel (suc i)) [
      | inl (k, name, ran, (eq, free, used)) ↦ inl (
        k,
        name,
        rw (taken, name_loop) ran,
        (eq, free, λ j l u. at_or_after taken j l (λ m. used j m u)),
      )
      | inr used ↦ inr λ j l u. at_or_after taken j l (λ m. used j m (omega arith))
    ]
  ]
    where
      at_or_after :
          contains names (candidate base i) ≡ true
          → (j : ℕ) → i ≤ j
          → (suc i ≤ j → contains names (candidate base j) ≡ true)
          → contains names (candidate base j) ≡ true
      at_or_after here j l after = elim (ℕ_discrete i j) [
        | yes same ↦ rw (← same) here
        | no apart ↦ after (omega arith)
      ]

-- The search for a container's name ends after at most one round more than there are names in use.
-- It returns the given name if that is free, and otherwise the given name with the smallest number
-- after it that gives a free name.
pub check_create_name-FirstFree :
    (names : List Text) (base : Text)
    → (k : ℕ) × (name : Text) × (check_create_name names base ≡ ok name)
      × FirstFree names base 0 k name
unfolding check_create_name
check_create_name-FirstFree names base =
    elim (name_loop-FirstFree names base (suc (length names)) 0) [
      | inl found ↦ found
      | inr used ↦ elim (some_free names base (suc (length names)) (omega arith) used) [ ]
    ]
