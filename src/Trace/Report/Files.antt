-- ===== src/Trace/Report/Files.antt =====
-- clean_sumo_traces.py: the lines of `steps.csv`.
use crownet.Prelude.{
  ℕ, suc, ◌+◌, ◌*◌, ◌≡◌, ◌∙◌, refl, ap, ◌==◌, ltb, Option, none, some, List, [], ◌∷◌, ◌++◌,
  if◌then◌else◌, Text, decimal, IsDigits, decimal-IsDigits, join, length, arith, sort,
  insert_sorted, Bool-cases, inl, inr,
}
use crownet.Trace.Seek.{BmSumoStep}
use crownet.Trace.Report.{
  csv_line, csv_values, Output, write_steps, write_runs, succeeded, steps_csv,
}

-- How often a text ends a line.
abbrev pub newlines : Text → ℕ
newlines [] = 0
newlines (c ∷ s) = if c == 10 then suc (newlines s) else newlines s

newlines-append : (s t : Text) → newlines (s ++ t) ≡ newlines s + newlines t
newlines-append [] t = omega arith
newlines-append (c ∷ s) t = ground (arith, newlines-append s t)

newlines-IsDigits : (s : Text) → IsDigits s → newlines s ≡ 0
newlines-IsDigits [] h = refl
newlines-IsDigits (c ∷ s) h = ground (arith, h.0.0, newlines-IsDigits s h.1)

module _ {F : Type 0} (shown : F → Text) where
  -- No value of a step breaks a line.
  abbrev pub IsOneLine : List (BmSumoStep F) → Type 0
  IsOneLine [] = Unit
  IsOneLine (s ∷ steps) = (newlines (join b';' (csv_values shown s)) ≡ 0) × IsOneLine steps

  abbrev pub AreOneLine : List (Option (Output shown)) → Type 0
  AreOneLine [] = Unit
  AreOneLine (none ∷ ret) = AreOneLine ret
  AreOneLine (some (steps, id) ∷ ret) = IsOneLine steps × AreOneLine ret

  -- The steps of the runs that succeeded.
  abbrev pub total : List (Option (Output shown)) → ℕ
  total [] = 0
  total (none ∷ ret) = total ret
  total (some (steps, id) ∷ ret) = length steps + total ret

  newlines-csv_line :
      (s : BmSumoStep F)
      → newlines (join b';' (csv_values shown s)) ≡ 0
      → newlines (csv_line shown s none) ≡ 1
  unfolding csv_line
  newlines-csv_line s h =
      omega (arith, newlines-append (join b';' (csv_values shown s)) (10 ∷ []), h)

  newlines-write_steps :
      (id : ℕ) (steps : List (BmSumoStep F))
      → IsOneLine steps
      → newlines (write_steps shown id steps) ≡ 2 * length steps
  unfolding write_steps
  newlines-write_steps id [] h = refl
  newlines-write_steps id (s ∷ steps) h =
      newlines-append (csv_line shown s none)
        (59 ∷ ((decimal id ++ (10 ∷ [])) ++ write_steps shown id steps))
      ∙ omega (
        arith,
        newlines-csv_line s h.0,
        newlines-append (decimal id ++ (10 ∷ [])) (write_steps shown id steps),
        newlines-append (decimal id) (10 ∷ []),
        newlines-IsDigits (decimal id) (decimal-IsDigits id),
        newlines-write_steps id steps h.1,
      )

  newlines-insert_sorted :
      (out : Output shown) (runs : List (Output shown))
      → newlines (write_runs shown (insert_sorted (λ a b. ltb a.1 b.1) out runs))
        ≡ newlines (write_runs shown (out ∷ runs))
  newlines-insert_sorted (steps, id) [] = refl
  newlines-insert_sorted (steps, id) ((others, n) ∷ runs) = elim (Bool-cases (ltb n id)) [
    | inl later ↦ rw later (
        newlines-append (write_steps shown n others)
          (write_runs shown (insert_sorted (λ a b. ltb a.1 b.1) (steps, id) runs))
        ∙ omega (
          arith,
          newlines-insert_sorted (steps, id) runs,
          newlines-append (write_steps shown id steps) (write_runs shown runs),
          newlines-append (write_steps shown id steps)
              (write_steps shown n others ++ write_runs shown runs),
          newlines-append (write_steps shown n others) (write_runs shown runs),
        ))
    | inr now ↦ rw now refl
  ]

  newlines-sort :
      (runs : List (Output shown))
      → newlines (write_runs shown (sort (λ a b. ltb a.1 b.1) runs))
        ≡ newlines (write_runs shown runs)
  newlines-sort [] = refl
  newlines-sort ((steps, id) ∷ runs) =
      newlines-insert_sorted (steps, id) (sort (λ a b. ltb a.1 b.1) runs)
      ∙ omega (
        arith,
        newlines-append (write_steps shown id steps)
            (write_runs shown (sort (λ a b. ltb a.1 b.1) runs)),
        newlines-append (write_steps shown id steps) (write_runs shown runs),
        newlines-sort runs,
      )

  newlines-succeeded :
      (ret : List (Option (Output shown)))
      → AreOneLine ret
      → newlines (write_runs shown (succeeded shown ret)) ≡ 2 * total ret
  newlines-succeeded [] h = refl
  newlines-succeeded (none ∷ ret) h = newlines-succeeded ret h
  newlines-succeeded (some (steps, id) ∷ ret) h =
      newlines-append (write_steps shown id steps) (write_runs shown (succeeded shown ret))
      ∙ omega (arith, newlines-write_steps id steps h.0, newlines-succeeded ret h.1)

  -- If no value of a step breaks a line, `steps.csv` has one line for the header and two for each step of
  -- the runs that succeeded: the number of the run, for which the header has a column, stands on a
  -- line of its own.
  pub steps_csv_split :
      (ret : List (Option (Output shown)))
      → AreOneLine ret
      → newlines (steps_csv shown ret) ≡ 1 + 2 * total ret
  unfolding steps_csv
  steps_csv_split ret h =
      ap suc (newlines-sort (succeeded shown ret) ∙ newlines-succeeded ret h) ∙ omega arith
