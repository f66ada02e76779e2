-- ===== src/SumoRuns/Order.antt =====
-- run_sumo_simulations.py: the order in which `routes.sort` puts the files.
use crownet.Prelude.{
  ℕ, suc, length, ◌≤◌, ◌≡◌, ◌∙◌, refl, ap, ltb, ltb→lt, ◌==◌, Bool, true, false, Bool-cases, inl,
  inr, List, [], ◌∷◌, Text, filter, sort, insert_sorted, arith,
}

abbrev pub before : ℕ × Text → ℕ × Text → Bool
before a b = ltb a.0 b.0

-- Numbers that do not fall, none below the first argument.
abbrev pub IsRising : ℕ → List (ℕ × Text) → Type 0
IsRising from [] = Unit
IsRising from (key ∷ keys) = (from ≤ key.0) × IsRising key.0 keys

abbrev pub number_each : (Text → ℕ) → List Text → List (ℕ × Text)
number_each number [] = []
number_each number (path ∷ paths) = (number path, path) ∷ number_each number paths

pub length-number_each :
    (number : Text → ℕ) (paths : List Text) → length (number_each number paths) ≡ length paths
length-number_each number [] = refl
length-number_each number (path ∷ paths) = ap suc (length-number_each number paths)

-- The files with a number.
abbrev pub with_number : ℕ → List (ℕ × Text) → List (ℕ × Text)
with_number n keys = filter (λ key. key.0 == n) keys

IsRising-insert_sorted :
    (from : ℕ) (x : ℕ × Text) (ys : List (ℕ × Text))
    → from ≤ x.0
    → IsRising from ys
    → IsRising from (insert_sorted before x ys)
IsRising-insert_sorted from x [] le h = (le, tt)
IsRising-insert_sorted from x (y ∷ ys) le h = elim (Bool-cases (ltb y.0 x.0)) [
  | inl less ↦
      rw less (h.0, IsRising-insert_sorted y.0 x ys (omega (arith, ltb→lt y.0 x.0 less)) h.1)
  | inr more ↦ rw more (le, (ground arith, h.1))
]

pub sort-IsRising : (keys : List (ℕ × Text)) → IsRising 0 (sort before keys)
sort-IsRising [] = tt
sort-IsRising (x ∷ keys) =
    IsRising-insert_sorted 0 x (sort before keys) (omega arith) (sort-IsRising keys)

with_number-insert_sorted :
    (n : ℕ) (x : ℕ × Text) (ys : List (ℕ × Text))
    → with_number n (insert_sorted before x ys) ≡ with_number n (x ∷ ys)
with_number-insert_sorted n x [] = refl
with_number-insert_sorted n x (y ∷ ys) = elim (Bool-cases (ltb y.0 x.0)) [
  | inl less ↦
      rw (less, with_number-insert_sorted n x ys)
        (elim (Bool-cases (y.0 == n)) [
          | inl same ↦ rw (same, lower y.0 x.0 n less same) refl
          | inr other ↦ rw other refl
        ])
  | inr more ↦ rw more refl
]
  where
    lower : (a b m : ℕ) → ltb a b ≡ true → (a == m) ≡ true → (b == m) ≡ false
    lower a b m less same = ground arith

pub with_number-sort :
    (n : ℕ) (keys : List (ℕ × Text)) → with_number n (sort before keys) ≡ with_number n keys
with_number-sort n [] = refl
with_number-sort n (x ∷ keys) =
    with_number-insert_sorted n x (sort before keys) ∙ (elim (Bool-cases (x.0 == n)) [
      | inl same ↦ rw same (ap (λ l. x ∷ l) (with_number-sort n keys))
      | inr other ↦ rw other (with_number-sort n keys)
    ])
