-- ===== src/Positions/Missing.antt =====
-- mf_stationary_m_single_cell.py: which files `only_missing` lets pass.
use mathlib.Core.List.{append_assoc}
use crownet.Prelude.{
  ℕ, ◌≡◌, refl, ◌==◌, Bool, true, ◌||◌, [], ◌∷◌, ◌++◌, Text, text, decimal, nat_eq, list_eq, List,
  contains, beq_self, false, starts_with, has_text, arith,
}
use crownet.Positions.{
  any_text, only_missing, trace_args, create_trace_from_list, create_positions_2, create_missing_2,
}
use crownet.Positions.Names.{file_name}

starts_with-append : (p y : Text) → starts_with (p ++ y) p ≡ true
starts_with-append [] [] = refl
starts_with-append [] (c ∷ y) = refl
starts_with-append (a ∷ p) y =
    let same : (a == a) ≡ true = ground arith in rw (same, starts_with-append p y) refl

-- A text is found between two others.
has_text-inside : (c : ℕ) (p x y : Text) → has_text (c ∷ p) (x ++ ((c ∷ p) ++ y)) ≡ true
has_text-inside c p [] y = rw (starts_with-append (c ∷ p) y) refl
has_text-inside c p (a ∷ x) y = rw (has_text-inside c p x y) (ground arith)

or_true : (a b c : Bool) → b ≡ true → ((a || (b || c)) ≡ true)
or_true a b c h = ground (arith, h)

or_left : (a b : Bool) → a ≡ true → (a || b) ≡ true
or_left a b h = ground (arith, h)

only_missing-full_4 :
    (path : Text) → has_text (text "full_4") path ≡ true → only_missing path ≡ true
unfolding only_missing decimal
only_missing-full_4 path h =
    or_left (any_text (text "full_") (4 ∷ 6 ∷ 12 ∷ 38 ∷ 44 ∷ 50 ∷ []) path)
      (any_text (text "quarter_") (48 ∷ 64 ∷ 96 ∷ 128 ∷ 152 ∷ 176 ∷ 200 ∷ []) path)
      (or_left (has_text (text "full_4") path)
        (any_text (text "full_") (6 ∷ 12 ∷ 38 ∷ 44 ∷ 50 ∷ []) path) h)

only_missing-full_6 :
    (path : Text) → has_text (text "full_6") path ≡ true → only_missing path ≡ true
unfolding only_missing decimal
only_missing-full_6 path h =
    or_left (any_text (text "full_") (4 ∷ 6 ∷ 12 ∷ 38 ∷ 44 ∷ 50 ∷ []) path)
      (any_text (text "quarter_") (48 ∷ 64 ∷ 96 ∷ 128 ∷ 152 ∷ 176 ∷ 200 ∷ []) path)
      (or_true (has_text (text "full_4") path) (has_text (text "full_6") path)
        (any_text (text "full_") (12 ∷ 38 ∷ 44 ∷ 50 ∷ []) path) h)

-- What stands in a name stands in the path.
has_text-density :
    (c : ℕ) (p dir y : Text) → has_text (c ∷ p) (dir ++ (text "density_" ++ ((c ∷ p) ++ y))) ≡ true
has_text-density c p dir y =
    rw⁻¹ (append_assoc dir (text "density_") ((c ∷ p) ++ y))
      (has_text-inside c p (dir ++ text "density_") y)

-- The command that makes the positions of a number of nodes in the first area.
abbrev pub full_command : Text → Text → Text → Text → Text → ℕ → List Text
full_command cmd scenario seed base_dir number_of_runs num =
    cmd
    ∷ (trace_args scenario seed number_of_runs base_dir (text "density_full")
        ++ (text "--number-of-positions" ∷ decimal num ∷ []))

module _ (cmd scenario seed_arg base_dir number_of_runs : Text) where
  abbrev made : ℕ → Bool
  made num =
      contains (create_positions_2 cmd scenario seed_arg base_dir number_of_runs)
        (full_command cmd scenario seed_arg base_dir number_of_runs num)

  abbrev missing : ℕ → Bool
  missing num =
      contains (create_missing_2 cmd scenario seed_arg base_dir number_of_runs)
        (full_command cmd scenario seed_arg base_dir number_of_runs num)

  commands_lem :
      ((made 48 ≡ true) × (made 64 ≡ true)) × ((missing 48 ≡ false) × (missing 64 ≡ false))
  unfolding create_positions_2 create_missing_2 create_trace_from_list decimal
  commands_lem = (
    (
      rw
          (
            beq_self cmd,
            beq_self scenario,
            beq_self seed_arg,
            beq_self number_of_runs,
            beq_self base_dir,
            contains,
          )
          refl,
      rw
          (
            beq_self cmd,
            beq_self scenario,
            beq_self seed_arg,
            beq_self number_of_runs,
            beq_self base_dir,
            contains,
          )
          refl,
    ),
    (
      rw
          (
            beq_self cmd,
            beq_self scenario,
            beq_self seed_arg,
            beq_self number_of_runs,
            beq_self base_dir,
            contains,
          )
          refl,
      rw
          (
            beq_self cmd,
            beq_self scenario,
            beq_self seed_arg,
            beq_self number_of_runs,
            beq_self base_dir,
            contains,
          )
          refl,
    ),
  )

  -- `create_positions_2` makes the positions of this number of nodes in the first area,
  -- `create_missing_2` does not, and `only_missing` lets the file of a run with them pass.
  abbrev pub IsMistaken : Text → ℕ → ℕ → ℕ → Type 0
  IsMistaken dir run seed num =
      (made num ≡ true)
      × (missing num ≡ false)
      × (only_missing (dir ++ file_name (text "density_full") num run seed) ≡ true)

  -- The runs with 48 and with 64 nodes in the first area are among the commands of
  -- `create_positions_2` and not among those of `create_missing_2`; `only_missing` lets their files
  -- pass all the same, in any folder and with any run and seed.
  pub only_missing-file_name :
      (dir : Text) (run seed : ℕ) → IsMistaken dir run seed 48 × IsMistaken dir run seed 64
  unfolding only_missing decimal
  only_missing-file_name dir run seed =
      let ((made_48, made_64), (missing_48, missing_64)) = commands_lem in
      (
        (
          made_48,
          missing_48,
          only_missing-full_4 (dir ++ file_name (text "density_full") 48 run seed)
              (has_text-density b'f' (text "ull_4") dir (b'8' ∷ rest)),
        ),
        (
          made_64,
          missing_64,
          only_missing-full_6 (dir ++ file_name (text "density_full") 64 run seed)
              (has_text-density b'f' (text "ull_6") dir (b'4' ∷ rest)),
        ),
      )
    where
      rest : Text
      rest = b'_' ∷ (decimal run ++ (b'_' ∷ (decimal seed ++ text ".ini")))
