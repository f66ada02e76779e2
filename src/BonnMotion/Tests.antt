-- ===== src/BonnMotion/Tests.antt =====
-- The theorems on the drawing of lines at concrete inputs: a generator that counts round, and numbers
-- for floats, with a field read by its first digit.
use crownet.Floats.{Floats}
use crownet.Prelude.{
  ℕ, ◌+◌, ◌-◌, ◌%◌, ◌≤◌, ◌≡◌, refl, ltb, ◌==◌, inl, inr, Option, none, some, List, [], ◌∷◌, Text,
  text, length, decimal, arith, Bool-cases, ==_iff,
}
use crownet.BonnMotion.{
  Args, Random, draw_lines, drawn_rows, main, pick, report, second_wave, sort_lines, wave_lines,
}
use crownet.BonnMotion.Draws.{IsAscending}
use crownet.BonnMotion.Ends.{IsFair, Hits}
use crownet.BonnMotion.Runs.{IsPicked, main-IsPicked}

abbrev counting : Random
counting = record {
  Generator = ℕ;
  seeded = λ s. s;
  any_seed = 5;
  randint = λ low high g. (low + g % (high + 1), g + 1);
}

abbrev digit : Text → Option ℕ
digit [] = none
digit (c ∷ s) = some (c - b'0')

abbrev digits : Floats
digits = record {
  F = ℕ;
  zero = 0;
  lt = ltb;
  eq = ◌==◌;
  sub = λ a b. a - b;
  div = λ a b. a;
  abs = λ a. a;
  norm = λ a b. a + b;
  parse = digit;
}

abbrev three_lines : List Text
three_lines = text "7 a" ∷ text "1 b" ∷ text "4 c" ∷ []

abbrev sorted_lines : List Text
sorted_lines = text "1 b" ∷ text "4 c" ∷ text "7 a" ∷ []

abbrev disk : Text → Option (List Text)
disk name = some three_lines

abbrev asked : ℕ → ℕ → Args digits
asked n time = record {
  input = text "in";
  output = text "out.txt";
  seed = none;
  n = some n;
  time = time;
  extend = text "general";
}

abbrev no_text : ℕ → Text
no_text t = text "4.0"

counting-Hits : (v : ℕ) → v ≤ 2 → (g : ℕ) → Hits counting 2 v 3 g
counting-Hits v h g = elim (Bool-cases (0 + g % 3 == v)) [
  | inl now ↦ inl ((==_iff (0 + g % 3) v).0 now)
  | inr wait ↦ inr (elim (Bool-cases (0 + (g + 1) % 3 == v)) [
    | inl now ↦ inl ((==_iff (0 + (g + 1) % 3) v).0 now)
    | inr longer ↦ inr (inl (ground (arith, ==_iff (0 + g % 3) v, ==_iff (0 + (g + 1) % 3) v)))
  ])
]

counting-IsFair : IsFair counting 2 3
counting-IsFair = record { in_range = λ g. omega arith; comes_round = counting-Hits }

-- Two of three lines, drawn by the numbers 2 and 0.
main-IsPicked_example :
    (is : List ℕ) × (rows : List Text) × ((main counting digits no_text disk 7 (asked 2 4)).written
      ≡ some rows)
    × IsAscending 0 is
    × (length is ≡ 2)
    × IsPicked sorted_lines is rows
unfolding sort_lines
main-IsPicked_example =
    main-IsPicked counting digits no_text disk (asked 2 4) three_lines sorted_lines 2 2 refl refl
      refl refl 3 7 counting-IsFair (omega arith) (omega arith)

run_of_two :
    (main counting digits no_text disk 7 (asked 2 4)).written ≡ some (text "1 b" ∷ text "7 a" ∷ [])
unfolding main drawn_rows draw_lines pick sort_lines
run_of_two = refl

run_with_waves :
    (main counting digits no_text disk 7 (asked 2 4)).printed
    ≡ []
      ∷ text "# new Config"
      ∷ text "[Config conf_txt]"
      ∷ text "extends = general"
      ∷ text "*.p.app[0..0].startTime = 0.0"
      ∷ text "*.p.app[1..1].startTime = 4.0"
      ∷ []
      ∷ []
unfolding main drawn_rows draw_lines pick sort_lines report second_wave wave_lines decimal
run_with_waves = refl
