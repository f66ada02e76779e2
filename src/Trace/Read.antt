-- ===== src/Trace/Read.antt =====
-- clean_sumo_traces.py: `BonnMotionReader`, `row` and `BmTraceInfo`, from the lines of a BonnMotion
-- file to the rows that moved too far or too fast. numpy's and pandas' conversions are parameters; what
-- the reader prints is left out.
pub mod Lines
pub mod Moves
use crownet.Floats.{Floats}
use crownet.Prelude.{
  ℕ, zero, suc, ◌+◌, ◌-◌, ◌*◌, ◌%◌, ◌==◌, leb, Bool, true, false, ◌||◌, ◌&&◌, Option, none, some,
  List, [], ◌∷◌, ◌++◌, if◌then◌else◌, Text, text, split, starts_with, drop, filter, add, nat_eq,
  length, map, Result, ok, err, value_error, index_error, ◌>>=◌, or_raise,
}

-- A line of the file: a comment, the comment with the ids, a line that is not divisible by 3 or does not
-- read, or the values of a trace.
pub data Line (F : Type 0) : Type 0 where
  comment : Line F
  id_map : List ℕ → Line F
  skipped : Line F
  values : List F → Line F
  broken : Line F

-- `s.strip()`, of white space.
abbrev is_space : ℕ → Bool
is_space c = c == b' ' || (leb 9 c && leb c 13)

abbrev lstrip : Text → Text
lstrip [] = []
lstrip (c ∷ s) = if is_space c then lstrip s else c ∷ s

abbrev rstrip : Text → Text
rstrip [] = []
rstrip (c ∷ s) = elim (rstrip s) [ [] ↦ if is_space c then [] else c ∷ [] | d ∷ t ↦ c ∷ d ∷ t ]

abbrev strip : Text → Text
strip s = rstrip (lstrip s)

-- `astype`, which raises if one of the parts does not read.
abbrev all_parsed : {A : Type 0} → (Text → Option A) → List Text → Option (List A)
all_parsed parse [] = some []
all_parsed parse (w ∷ ws) = elim (parse w) [
  | none ↦ none
  | some a ↦ elim (all_parsed parse ws) [ none ↦ none | some rest ↦ some (a ∷ rest) ]
]

abbrev id_map_comment : Text
id_map_comment = text "# Sumo id map:"

module _ (R : Floats) (parse_id : Text → Option ℕ) where
  abbrev of_values : Option (List R.F) → Line R.F
  of_values none = broken
  of_values (some vs) = if length vs % 3 == 0 then values vs else skipped

  abbrev of_ids : Option (List ℕ) → Line R.F
  of_ids none = broken
  of_ids (some ids) = id_map ids

  -- The tests of the loop of `__iter__`, on one line.
  unfoldable pub classify : Text → Line R.F
  classify row =
      if starts_with row (text "#")
      then (if starts_with row id_map_comment
          then of_ids (all_parsed parse_id (split b' ' (strip (drop (length id_map_comment) row))))
          else comment)
      else of_values (all_parsed R.parse (split b' ' row))

abbrev pub prepend :
    {A : Type 0}
    → ℕ × A
    → Result (List (ℕ × A)) × Option (List ℕ)
    → Result (List (ℕ × A)) × Option (List ℕ)
prepend item (ok items, ids) = (ok (item ∷ items), ids)
prepend item (err raised, ids) = (err raised, ids)

-- A row that the handler refuses ends the loop.
abbrev pub after_handler :
    {A : Type 0}
    → ℕ
    → Option (List ℕ)
    → Result A
    → Result (List (ℕ × A)) × Option (List ℕ)
    → Result (List (ℕ × A)) × Option (List ℕ)
after_handler n ids (err raised) rest = (err raised, ids)
after_handler n ids (ok a) rest = prepend (n, a) rest

module _ {F A : Type 0} (handler : ℕ → List F → Result A) where
  -- `__iter__` read to its end: the numbered rows or the exception, and `sumo_ids`. `c` counts lines and
  -- `comments` comments.
  unfoldable pub iterate :
      ℕ → ℕ → Option (List ℕ) → List (Line F) → Result (List (ℕ × A)) × Option (List ℕ)
  iterate c comments ids [] = (ok [], ids)
  iterate c comments ids (comment ∷ rows) = iterate (c + 1) (comments + 1) ids rows
  iterate c comments ids (id_map new ∷ rows) = iterate (c + 1) (comments + 1) (some new) rows
  iterate c comments ids (skipped ∷ rows) = iterate (c + 1) comments ids rows
  iterate c comments ids (broken ∷ rows) = (err value_error, ids)
  iterate c comments ids (values vs ∷ rows) =
      after_handler (c - comments) ids (handler (c - comments) vs)
        (iterate (c + 1) comments ids rows)

-- A row of the table: `id`, `time`, `x`, `y`, `dist` and `speed`.
pub record BmRow (F : Type 0) : Type 0 where
  pub id : ℕ
  pub time : F
  pub x : F
  pub y : F
  pub dist : F
  pub speed : F

-- `data.reshape((-1, 3))`
unfoldable pub reshape : {F : Type 0} → List F → Result (List (F × F × F))
reshape [] = ok []
reshape (t ∷ []) = err value_error
reshape (t ∷ x ∷ []) = err value_error
reshape (t ∷ x ∷ y ∷ vs) = reshape vs >>= λ rest. ok ((t, x, y) ∷ rest)

module _ {A : Type 0} where
  -- `data[-1] = v`
  abbrev pub set_last : A → List A → List A
  set_last v [] = []
  set_last v (x ∷ []) = v ∷ []
  set_last v (x ∷ y ∷ xs) = x ∷ set_last v (y ∷ xs)

  -- `np.roll(data, shift=1, axis=0)`
  abbrev pub last_or : A → List A → A
  last_or v [] = v
  last_or v (x ∷ xs) = last_or x xs

  abbrev pub but_last : List A → List A
  but_last [] = []
  but_last (x ∷ []) = []
  but_last (x ∷ y ∷ xs) = x ∷ but_last (y ∷ xs)

  abbrev pub roll : List A → List A
  roll [] = []
  roll (x ∷ xs) = last_or x xs ∷ but_last (x ∷ xs)

  -- `data_shift`: the first item stands in for the one before it.
  abbrev pub shifted : List A → Result (List A)
  shifted [] = err index_error
  shifted (x ∷ xs) = ok (roll (set_last x (x ∷ xs)))

module _ (R : Floats) where
  open R use {F, sub, div, norm}

  -- A line of the result, from the point before and the point.
  abbrev pub moved : ℕ → F × F × F → F × F × F → BmRow F
  moved id (t, x, y) (u, v, w) = record {
    id = id;
    time = u;
    x = v;
    y = w;
    dist = norm (sub v x) (sub w y);
    speed = div (norm (sub v x) (sub w y)) (sub u t);
  }

  abbrev pub moves_of : ℕ → List (F × F × F) → List (F × F × F) → List (BmRow F)
  moves_of id [] points = []
  moves_of id (p ∷ befores) [] = []
  moves_of id (p ∷ befores) (q ∷ points) = moved id p q ∷ moves_of id befores points

  unfoldable pub row : ℕ → List F → Result (List (BmRow F))
  unfolding reshape
  row id vs = do points ← reshape vs; befores ← shifted points; ok (moves_of id befores points)

  -- `df.fillna(0.0)`, by pandas' test for a missing value.
  module _ (is_nan : F → Bool) where
    abbrev fill : F → F
    fill a = if is_nan a then R.zero else a

    abbrev pub fillna : BmRow F → BmRow F
    fillna r = record {
      id = r.id;
      time = fill r.time;
      x = fill r.x;
      y = fill r.y;
      dist = fill r.dist;
      speed = fill r.speed;
    }

    abbrev pub concatenate : List (ℕ × List (BmRow F)) → List (BmRow F)
    concatenate [] = []
    concatenate ((n, rows) ∷ more) = rows ++ concatenate more

    -- `np.concatenate` refuses an empty list.
    abbrev pub frame_of : List (ℕ × List (BmRow F)) → Result (List (BmRow F))
    frame_of [] = err value_error
    frame_of (item ∷ items) = ok (map fillna (concatenate (item ∷ items)))

    -- `to_frame` with `row` as the handler, and the ids that the reader has found.
    unfoldable pub to_frame :
        (Text → Option ℕ) → List Text → Result (List (BmRow F)) × Option (List ℕ)
    to_frame parse_id file =
        let read = iterate row 0 0 none (map (classify R parse_id) file) in
        (read.0 >>= frame_of, read.1)

-- `BmTraceInfo`: the rows above a speed or a distance, and how many nodes have some.
pub record BmTraceInfo (F : Type 0) : Type 0 where
  pub traces : List (BmRow F)
  pub num_nodes : ℕ
  pub df_speed_violations : List (BmRow F)
  pub num_nodes_violated_speed : ℕ
  pub df_dist_violations : List (BmRow F)
  pub num_nodes_violated_dist : ℕ

-- `df["id"].unique()`
abbrev pub unique_from : {F : Type 0} → List ℕ → List (BmRow F) → List ℕ
unique_from seen [] = seen
unique_from seen (r ∷ rows) = unique_from (add seen r.id) rows

abbrev pub unique : {F : Type 0} → List (BmRow F) → List ℕ
unique = unique_from []

unfoldable pub find_speed_violations : (R : Floats) → R.F → R.F → List (BmRow R.F) → BmTraceInfo R.F
find_speed_violations R max_speed max_dist rows =
    let fast = filter (λ r. R.lt max_speed r.speed) rows in
    let far = filter (λ r. R.lt max_dist r.dist) rows in
    record {
      traces = rows;
      num_nodes = length (unique rows);
      df_speed_violations = fast;
      num_nodes_violated_speed = length (unique fast);
      df_dist_violations = far;
      num_nodes_violated_dist = length (unique far);
    }
