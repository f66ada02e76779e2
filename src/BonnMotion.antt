-- ===== src/BonnMotion.antt =====
-- muenchnerFreiheit/timoKlein/BonnMotion/rndBonnMotion.py: draws lines of a file at random. Python's
-- `random` is a parameter, the file system a function, and the loop that draws takes fuel. A negative
-- `n` does what 0 does.
pub mod Draws
pub mod Ends
pub mod Runs
pub mod Tests
use crownet.Floats.{Floats}
use crownet.Prelude.{
  ℕ, zero, suc, ◌+◌, ◌-◌, ◌==◌, ltb, Bool, true, false, ◌||◌, ◌&&◌, leb, Option, none, some, List,
  [], ◌∷◌, ◌++◌, if◌then◌else◌, Text, text, decimal, split, sort, add, nat_eq, list_eq, contains,
  length, get_elem?, map, Result, ok, err, value_error, index_error, type_error, system_exit,
  out_of_fuel, ◌>>=◌, ◌>>◌, or_raise,
}

-- `random.Random`: a generator from a seed, and `randint` with both ends included.
pub record Random : Type 1 where
  pub Generator : Type 0
  pub seeded : ℕ → Generator
  -- `random.randrange(sys.maxsize)`
  pub any_seed : ℕ
  pub randint : ℕ → ℕ → Generator → ℕ × Generator

-- `arg_dict`, as `argparse` fills it: `-n` and `-s` may have no value.
pub record Args (F : Floats) : Type 0 where
  pub input : Text
  pub output : Text
  pub seed : Option ℕ
  pub n : Option ℕ
  pub time : F.F
  pub extend : Text

-- What a run leaves: the lines of the output file, if it came to write it, the lines that it printed,
-- and how it ended.
pub record Run : Type 0 where
  pub written : Option (List Text)
  pub printed : List Text
  pub ended : Result (Unit {0})

module _ (R : Random) where
  -- `randint(0, len(lines) - 1)`, which raises if there is no line.
  abbrev draw_line : ℕ → R.Generator → Result (ℕ × R.Generator)
  draw_line zero g = err value_error
  draw_line (suc m) g = ok (R.randint 0 m g)

  -- `while len(draw) < n`
  unfoldable pub draw_lines : ℕ → ℕ → ℕ → R.Generator → List ℕ → Result (List ℕ)
  draw_lines zero n lines g draw = err out_of_fuel
  draw_lines (suc fuel) n zero g draw = if ltb (length draw) n then err value_error else ok draw
  draw_lines (suc fuel) n (suc m) g draw =
      let rest = draw_lines fuel n (suc m) (R.randint 0 m g).1 (add draw (R.randint 0 m g).0) in
      if ltb (length draw) n then rest else ok draw

-- The lines at some indices.
unfoldable pub pick : List Text → List ℕ → Result (List Text)
pick lines [] = ok []
pick lines (d ∷ ds) = do
  row ← or_raise (get_elem? lines d) index_error
  rows ← pick lines ds
  ok (row ∷ rows)

-- `row.split(' ')[0]`
abbrev pub first_field : Text → Text
first_field row = elim (split b' ' row) [ [] ↦ [] | w ∷ ws ↦ w ]

module _ (F : Floats) where
  abbrev pub time_of : Text → Result F.F
  time_of row = or_raise (F.parse (first_field row)) value_error

  -- The keys of all lines are read before the first comparison.
  abbrev pub keyed : List Text → Result (List (F.F × Text))
  keyed [] = ok []
  keyed (row ∷ rows) = do t ← time_of row; rest ← keyed rows; ok ((t, row) ∷ rest)

  abbrev pub rows_of : List (F.F × Text) → List Text
  rows_of = map (λ k. k.1)

  unfoldable pub sort_lines : List Text → Result (List Text)
  sort_lines lines = do keys ← keyed lines; ok (rows_of (sort (λ a b. F.lt a.0 b.0) keys))

  -- `time >= start`
  abbrev pub is_late : F.F → F.F → Bool
  is_late start t = F.lt start t || F.eq t start

  -- The indices of the rows of the second wave.
  unfoldable pub second_wave : F.F → ℕ → List Text → Result (List ℕ)
  second_wave start idx [] = ok []
  second_wave start idx (row ∷ rows) = do
    t ← time_of row
    rest ← second_wave start (idx + 1) rows
    ok (if is_late start t then idx ∷ rest else rest)

-- `min` and `max` of a list.
abbrev pub min_of : List ℕ → Result ℕ
min_of [] = err value_error
min_of (x ∷ []) = ok x
min_of (x ∷ y ∷ xs) = min_of (y ∷ xs) >>= λ m. ok (if ltb m x then m else x)

abbrev pub max_of : List ℕ → Result ℕ
max_of [] = err value_error
max_of (x ∷ []) = ok x
max_of (x ∷ y ∷ xs) = max_of (y ∷ xs) >>= λ m. ok (if ltb x m then m else x)

-- `n - 1` in an f-string.
abbrev pub before : ℕ → Text
before zero = text "-1"
before (suc n) = decimal n

abbrev pub last_part : List Text → Text
last_part [] = []
last_part (w ∷ []) = w
last_part (w ∷ v ∷ ws) = last_part (v ∷ ws)

-- The head of the configuration, which is printed before the second wave is looked at.
abbrev pub head_of : Text → Text → List Text
head_of output extend =
    []
    ∷ text "# new Config"
    ∷ (text "[Config conf_" ++ (last_part (split b'.' output) ++ text "]"))
    ∷ (text "extends = " ++ extend)
    ∷ []

-- The lines of the two waves; `time` is the text of a float.
abbrev pub first_wave_line : ℕ → Text
first_wave_line first = text "*.p.app[0.." ++ (before first ++ text "].startTime = 0.0")

abbrev pub second_wave_line : Text → ℕ → ℕ → Text
second_wave_line time first final =
    text "*.p.app["
    ++ (decimal first ++ (text ".." ++ (decimal final ++ (text "].startTime = " ++ time))))

-- The lines after the head, up to the exception that ends them.
unfoldable pub wave_lines : Text → List ℕ → List Text × Result (Unit {0})
wave_lines time late = elim (min_of late) [
  | err raised ↦ ([], err raised)
  | ok first ↦ elim (max_of late) [
    | err raised ↦ (first_wave_line first ∷ [], err raised)
    | ok final ↦ (first_wave_line first ∷ second_wave_line time first final ∷ [] ∷ [], ok tt)
  ]
]

module _ (R : Random) (F : Floats) (shown : F.F → Text) (read : Text → Option (List Text)) where
  abbrev pub generator : Args F → R.Generator
  generator args = R.seeded (elim args.seed [ none ↦ R.any_seed | some s ↦ s ])

  -- From the lines of the input file to those of the output file.
  unfoldable pub drawn_rows : ℕ → Args F → List Text → Result (List Text)
  drawn_rows fuel args contents = do
    lines ← sort_lines F contents
    n ← or_raise args.n type_error
    draw ← draw_lines R fuel n (length lines) (generator args) []
    pick lines (sort ltb draw)

  -- What is printed once the output file is there.
  unfoldable pub report : Args F → List Text → List Text × Result (Unit {0})
  report args rows = elim (second_wave F args.time 0 rows) [
    | err raised ↦ ([], err raised)
    | ok late ↦ (
      head_of args.output args.extend ++ (wave_lines (shown args.time) late).0,
      (wave_lines (shown args.time) late).1,
    )
  ]

  abbrev pub outcome : Args F → Result (List Text) → Run
  outcome args (err raised) = record { written = none; printed = []; ended = err raised }
  outcome args (ok rows) = record {
    written = some rows;
    printed = (report args rows).0;
    ended = (report args rows).1;
  }

  abbrev pub run_on : ℕ → Args F → Option (List Text) → Run
  run_on fuel args none = record {
    written = none;
    printed = (text "input " ++ (args.input ++ text " is not a file ")) ∷ [];
    ended = err system_exit;
  }
  run_on fuel args (some contents) = outcome args (drawn_rows fuel args contents)

  unfoldable pub main : ℕ → Args F → Run
  main fuel args = run_on fuel args (read args.input)

-- The value of an option of type `str2bool`: already a truth value, or a word.
pub data Flag : Type 0 where
  flag : Bool → Flag
  word : Text → Flag

-- `v.lower()`, on the letters of ASCII.
abbrev lower : Text → Text
lower = map (λ c. if leb b'A' c && leb c b'Z' then c + 32 else c)

abbrev yes_words : List Text
yes_words = text "yes" ∷ text "true" ∷ text "t" ∷ text "y" ∷ text "1" ∷ []

abbrev no_words : List Text
no_words = text "no" ∷ text "false" ∷ text "f" ∷ text "n" ∷ text "0" ∷ []

-- `none` is `ArgumentTypeError`, which argparse turns into a message.
unfoldable pub str2bool : Flag → Option Bool
str2bool (flag b) = some b
str2bool (word v) =
    if contains yes_words (lower v)
    then some true
    else if contains no_words (lower v)
    then some false
    else none
