-- ===== src/BonnMotion/Draws.antt =====
-- rndBonnMotion.py: the loop that draws line numbers. With a generator that comes round to every
-- number it ends, with as many different numbers as asked for; it cannot end if more are asked for than
-- there are lines.
use crownet.Prelude.{
  ℕ, zero, suc, ◌+◌, ◌≤◌, ◌<◌, ◌≡◌, ◌∙◌, refl, inl, inr, ltb, ltb→lt, ==_iff, true, false,
  Bool-cases, List, [], ◌∷◌, ◌++◌, sort, insert_sorted, add, nat_eq, contains, contains-append,
  IsSetList, length-le_of_subset, length, range_from, arith, contains-sort,
}

-- Strictly rising numbers, none below the first argument.
abbrev pub IsAscending : ℕ → List ℕ → Type 0
IsAscending from [] = Unit
IsAscending from (x ∷ xs) = (from ≤ x) × IsAscending (suc x) xs

-- All below a bound.
abbrev pub IsBelow : ℕ → List ℕ → Type 0
IsBelow bound [] = Unit
IsBelow bound (x ∷ xs) = (x < bound) × IsBelow bound xs

IsAscending-insert_sorted :
    (from x : ℕ) (ys : List ℕ)
    → from ≤ x
    → contains ys x ≡ false
    → IsAscending from ys
    → IsAscending from (insert_sorted ltb x ys)
IsAscending-insert_sorted from x [] le new h = (le, tt)
IsAscending-insert_sorted from x (y ∷ ys) le new h = elim (Bool-cases (ltb y x)) [
  | inl less ↦ rw less (
    h.0,
    IsAscending-insert_sorted (suc y) x ys (omega (arith, ltb→lt y x less)) (ground arith) h.1,
  )
  | inr more ↦ rw more (le, (ground arith, h.1))
]

pub IsAscending-sort : (xs : List ℕ) → IsSetList xs → IsAscending 0 (sort ltb xs)
IsAscending-sort [] h = tt
IsAscending-sort (x ∷ xs) h =
    IsAscending-insert_sorted 0 x (sort ltb xs) (omega arith) (contains-sort ltb xs x ∙ h.0)
      (IsAscending-sort xs h.1)

IsBelow-insert_sorted :
    (bound x : ℕ) (ys : List ℕ)
    → x < bound
    → IsBelow bound ys
    → IsBelow bound (insert_sorted ltb x ys)
IsBelow-insert_sorted bound x [] lt h = (lt, tt)
IsBelow-insert_sorted bound x (y ∷ ys) lt h = elim (Bool-cases (ltb y x)) [
  | inl less ↦ rw less (h.0, IsBelow-insert_sorted bound x ys lt h.1)
  | inr more ↦ rw more (lt, h)
]

pub IsBelow-sort : (bound : ℕ) (xs : List ℕ) → IsBelow bound xs → IsBelow bound (sort ltb xs)
IsBelow-sort bound [] h = tt
IsBelow-sort bound (x ∷ xs) h =
    IsBelow-insert_sorted bound x (sort ltb xs) h.0 (IsBelow-sort bound xs h.1)

-- The numbers drawn so far: different, and numbers of lines.
pub record IsDraw (lines : ℕ) (draw : List ℕ) : Type 0 where
  pub different : IsSetList draw
  pub below : IsBelow lines draw

IsSetList-snoc :
    (xs : List ℕ) (x : ℕ) → IsSetList xs → contains xs x ≡ false → IsSetList (xs ++ (x ∷ []))
IsSetList-snoc [] x h new = (refl, tt)
IsSetList-snoc (y ∷ xs) x h new = (
  contains-append xs (x ∷ []) y ∙ ground (arith, ==_iff y x, ==_iff x y),
  IsSetList-snoc xs x h.1 (ground arith),
)

IsBelow-snoc :
    (bound : ℕ) (xs : List ℕ) (x : ℕ)
    → IsBelow bound xs
    → x < bound
    → IsBelow bound (xs ++ (x ∷ []))
IsBelow-snoc bound [] x h lt = (lt, tt)
IsBelow-snoc bound (y ∷ xs) x h lt = (h.0, IsBelow-snoc bound xs x h.1 lt)

pub IsDraw-add :
    (lines x : ℕ) (draw : List ℕ) → IsDraw lines draw → x < lines → IsDraw lines (add draw x)
IsDraw-add lines x draw h lt = elim (Bool-cases (contains draw x)) [
  | inl old ↦ rw (old, add) h
  | inr new ↦
      rw (new, add)
        (record {
          different = IsSetList-snoc draw x h.different new;
          below = IsBelow-snoc lines draw x h.below lt;
        })
]

-- A set of numbers below a bound has no more members than the bound.
contains-range_from :
    (start n x : ℕ) → start ≤ x → x < start + n → contains (range_from start n) x ≡ true
contains-range_from start zero x le lt = absurd (omega arith)
contains-range_from start (suc n) x le lt = elim (Bool-cases (nat_eq.beq x start)) [
  | inl same ↦ rw same refl
  | inr other ↦ rw other (contains-range_from (suc start) n x (ground (arith, other)) (omega arith))
]

pub length-range_from : (start n : ℕ) → length (range_from start n) ≡ n
length-range_from start zero = refl
length-range_from start (suc n) = omega (arith, length-range_from (suc start) n)

lt_of_IsBelow : (bound x : ℕ) (xs : List ℕ) → IsBelow bound xs → contains xs x ≡ true → x < bound
lt_of_IsBelow bound x [] h m = cc
lt_of_IsBelow bound x (y ∷ xs) h m = ground (arith, lt_of_IsBelow bound x xs)

pub length-IsDraw : (lines : ℕ) (draw : List ℕ) → IsDraw lines draw → length draw ≤ lines
length-IsDraw lines draw h =
    let fits : length draw ≤ length (range_from 0 lines) =
      length-le_of_subset draw (range_from 0 lines) h.different λ x m.
        contains-range_from 0 lines x (omega arith)
          (ground (arith, lt_of_IsBelow lines x draw h.below m)) in
    omega (arith, fits, length-range_from 0 lines)

pub lt_of_contains-range_from :
    (start n x : ℕ) → contains (range_from start n) x ≡ true → x < start + n
lt_of_contains-range_from start zero x h = cc
lt_of_contains-range_from start (suc n) x h = elim (Bool-cases (nat_eq.beq x start)) [
  | inl same ↦ ground arith
  | inr other ↦ omega (arith, lt_of_contains-range_from (suc start) n x (ground arith))
]
