-- ===== src/BonnMotion/Runs.antt =====
-- rndBonnMotion.py: what a run of `main` writes and prints.
use mathlib.Core.Path.{subst}
use mathlib.Core.List.{append-nil}
use crownet.Floats.{Floats}
use crownet.Prelude.{
  ℕ, suc, ◌+◌, ◌*◌, ◌≤◌, ◌<◌, ◌≡◌, ◌∙◌, refl, sym, ap, ◌>>=◌, ltb, false, Option, none, some, List,
  [], ◌∷◌, Text, sort, length, length-sort, get_elem?, get_elem?-lt, ok, err, value_error,
  out_of_fuel, arith,
}
use crownet.BonnMotion.{
  Args, Random, draw_lines, drawn_rows, generator, head_of, is_late, main, outcome, pick, report,
  run_on, second_wave, sort_lines, time_of, wave_lines,
}
use crownet.BonnMotion.Draws.{IsAscending, IsAscending-sort, IsBelow, IsBelow-sort}
use crownet.BonnMotion.Ends.{IsFair, draw_lines_ends, draw_lines_endless}

-- The rows are the lines at the indices.
abbrev pub IsPicked : List Text → List ℕ → List Text → Type 0
IsPicked lines [] [] = Unit
IsPicked lines [] (row ∷ rows) = ⊥
IsPicked lines (i ∷ is) [] = ⊥
IsPicked lines (i ∷ is) (row ∷ rows) = (get_elem? lines i ≡ some row) × IsPicked lines is rows

pick-IsPicked :
    (lines : List Text) (is : List ℕ)
    → IsBelow (length lines) is
    → (rows : List Text) × (pick lines is ≡ ok rows) × IsPicked lines is rows
unfolding pick
pick-IsPicked lines [] h = ([], refl, tt)
pick-IsPicked lines (i ∷ is) h =
    let (row, found) = get_elem?-lt lines i h.0 in
    let (rows, picked, same) = pick-IsPicked lines is h.1 in
    (row ∷ rows, rw (found, picked) refl, (found, same))

-- No row is at or after the start of the second wave, and each has a time.
abbrev pub IsEarly : (F : Floats) → F.F → List Text → Type 0
IsEarly F start [] = Unit
IsEarly F start (row ∷ rows) =
    ((t : F.F) × (time_of F row ≡ ok t) × (is_late F start t ≡ false)) × IsEarly F start rows

second_wave-IsEarly :
    (F : Floats) (start : F.F) (idx : ℕ) (rows : List Text)
    → IsEarly F start rows
    → second_wave F start idx rows ≡ ok []
unfolding second_wave
second_wave-IsEarly F start idx [] h = refl
second_wave-IsEarly F start idx (row ∷ rows) ((t, parsed, early), h) =
    rw (parsed, second_wave-IsEarly F start (idx + 1) rows h, early) refl

module _ (R : Random) (F : Floats) (shown : F.F → Text) (read : Text → Option (List Text))
    (args : Args F) (contents lines : List Text) (m n : ℕ) (there : read args.input ≡ some contents)
    (sorted : sort_lines F contents ≡ ok lines) (size : length lines ≡ suc m)
    (wanted : args.n ≡ some n) where
  drawn_rows_lem :
      (fuel : ℕ)
      → drawn_rows R F shown read fuel args contents ≡ (
          draw_lines R fuel n (suc m) (generator R F shown read args) [] >>= λ draw.
          pick lines (sort ltb draw))
  unfolding drawn_rows
  drawn_rows_lem fuel = rw (sorted, wanted, size) refl

  -- A file whose lines can be sorted and of which no more lines are wanted than it has, with a generator
  -- that keeps to its range and comes round to each number of it within w draws: the run needs at most
  -- w * n + 1 rounds, and it writes n lines of the sorted file, at n different places, in the order
  -- of the sorted file.
  pub main-IsPicked :
      (w fuel : ℕ)
      → IsFair R m w
      → n ≤ suc m
      → w * n < fuel
      → (is : List ℕ) × (rows : List Text) × ((main R F shown read fuel args).written ≡ some rows)
        × IsAscending 0 is
        × (length is ≡ n)
        × IsPicked lines is rows
  unfolding main
  main-IsPicked w fuel fair fits enough =
      let (draw, drew, good, full) =
        draw_lines_ends R m w n fair n fuel (generator R F shown read args) [] fits
          (record { different = tt; below = tt }) (omega arith) (omega arith) enough in
      let below : IsBelow (length lines) (sort ltb draw) =
        subst (λ k. IsBelow k (sort ltb draw)) (sym size) (IsBelow-sort (suc m) draw good.below) in
      let (rows, picked, same) = pick-IsPicked lines (sort ltb draw) below in
      (
        sort ltb draw,
        rows,
        ap (λ o. (run_on R F shown read fuel args o).written) there
            ∙ ap (λ r. (outcome R F shown read args r).written)
                (drawn_rows_lem fuel
                  ∙ (ap (λ r. r >>= λ d. pick lines (sort ltb d)) drew ∙ picked)),
        IsAscending-sort draw good.different,
        length-sort ltb draw ∙ full,
        same,
      )

  -- If more lines are wanted than the file has, the run writes and prints nothing and never ends.
  pub main_endless :
      (in_range : (g : R.Generator) → (R.randint 0 m g).0 ≤ m)
      → suc m < n
      → (fuel : ℕ)
      → main R F shown read fuel args
        ≡ record { written = none; printed = []; ended = err out_of_fuel }
  unfolding main
  main_endless in_range large fuel =
      ap (run_on R F shown read fuel args) there
      ∙ ap (outcome R F shown read args) (
          drawn_rows_lem fuel
          ∙ ap (λ r. r >>= λ d. pick lines (sort ltb d))
              (draw_lines_endless R m n in_range large fuel (generator R F shown read args) []
                (record { different = tt; below = tt })))

-- A run that writes rows, all of which are earlier than the second wave, prints the head of the
-- configuration without a line on either wave, and ends in ValueError.
pub main_without_second_wave :
    (R : Random) (F : Floats) (shown : F.F → Text) (read : Text → Option (List Text)) (fuel : ℕ)
    (args : Args F) (contents rows : List Text)
    → read args.input ≡ some contents
    → drawn_rows R F shown read fuel args contents ≡ ok rows
    → IsEarly F args.time rows
    → main R F shown read fuel args ≡ record {
      written = some rows;
      printed = head_of args.output args.extend;
      ended = err value_error;
    }
unfolding main report wave_lines
main_without_second_wave R F shown read fuel args contents rows there drawn early =
    ap (run_on R F shown read fuel args) there
    ∙ (ap (outcome R F shown read args) drawn
        ∙ ap (λ p. record { written = some rows; printed = p.0; ended = p.1 }) raises)
  where
    raises : report R F shown read args rows ≡ (head_of args.output args.extend, err value_error)
    raises = rw (second_wave-IsEarly F args.time 0 rows early, report) (simp append-nil)
