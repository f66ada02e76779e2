-- ===== src/Trace/Read/Lines.antt =====
-- clean_sumo_traces.py: which number `BonnMotionReader` gives to a row.
use crownet.Prelude.{
  ℕ, ◌+◌, ◌-◌, ◌≡◌, ◌∙◌, refl, ap, Option, none, some, List, [], ◌∷◌, Result, ok, err, value_error,
  ◌>>=◌, arith,
}
use crownet.Trace.Read.{
  Line, comment, id_map, skipped, values, broken, iterate, prepend, after_handler,
}

-- The lines that are no comments.
abbrev pub rows_only : {F : Type 0} → List (Line F) → List (Line F)
rows_only [] = []
rows_only (comment ∷ rows) = rows_only rows
rows_only (id_map ids ∷ rows) = rows_only rows
rows_only (skipped ∷ rows) = skipped ∷ rows_only rows
rows_only (values vs ∷ rows) = values vs ∷ rows_only rows
rows_only (broken ∷ rows) = broken ∷ rows_only rows

-- The ids of the last comment that lists them.
abbrev pub last_map : {F : Type 0} → Option (List ℕ) → List (Line F) → Option (List ℕ)
last_map ids [] = ids
last_map ids (id_map new ∷ rows) = last_map (some new) rows
last_map ids (_ ∷ rows) = last_map ids rows

abbrev pub IsOk : {A : Type 0} → Result A → Type 0
IsOk (ok a) = Unit
IsOk (err raised) = ⊥

module _ {F A : Type 0} (handler : ℕ → List F → Result A) where
  -- The rows with their places in the list; a line that is skipped keeps its place.
  abbrev pub numbered : ℕ → List (Line F) → Result (List (ℕ × A))
  numbered n [] = ok []
  numbered n (comment ∷ rows) = numbered n rows
  numbered n (id_map ids ∷ rows) = numbered n rows
  numbered n (skipped ∷ rows) = numbered (n + 1) rows
  numbered n (broken ∷ rows) = err value_error
  numbered n (values vs ∷ rows) = do
    a ← handler n vs
    rest ← numbered (n + 1) rows
    ok ((n, a) ∷ rest)

  prepended :
      (n : ℕ) (a : A) (read : Result (List (ℕ × A)) × Option (List ℕ))
      → (prepend (n, a) read).0 ≡ (read.0 >>= λ rest. ok ((n, a) ∷ rest))
  prepended n a (ok items, ids) = refl
  prepended n a (err raised, ids) = refl

  prepended_ids :
      (n : ℕ) (a : A) (read : Result (List (ℕ × A)) × Option (List ℕ)) (ids : Option (List ℕ))
      → (IsOk read.0 → read.1 ≡ ids)
      → IsOk (prepend (n, a) read).0
      → (prepend (n, a) read).1 ≡ ids
  prepended_ids n a (ok items, found) ids h k = h tt
  prepended_ids n a (err raised, found) ids h k = absurd k

  handled :
      (n : ℕ) (ids : Option (List ℕ)) (made : Result A)
      (read : Result (List (ℕ × A)) × Option (List ℕ)) (items : Result (List (ℕ × A)))
      (last : Option (List ℕ))
      → read.0 ≡ items
      → (IsOk read.0 → read.1 ≡ last)
      → ((after_handler n ids made read).0 ≡ (made >>= λ a. items >>= λ rest. ok ((n, a) ∷ rest)))
        × (IsOk (after_handler n ids made read).0 → (after_handler n ids made read).1 ≡ last)
  handled n ids (err raised) read items last same found = (refl, λ k. absurd k)
  handled n ids (ok a) read items last same found = (
    prepended n a read ∙ ap (λ r. r >>= λ rest. ok ((n, a) ∷ rest)) same,
    prepended_ids n a read last found,
  )

  iterate-numbered_from :
      (c comments n : ℕ) (ids : Option (List ℕ)) (rows : List (Line F))
      → c ≡ n + comments
      → ((iterate handler c comments ids rows).0 ≡ numbered n (rows_only rows))
        × (IsOk (iterate handler c comments ids rows).0
            → (iterate handler c comments ids rows).1 ≡ last_map ids rows)
  unfolding iterate
  iterate-numbered_from c comments n ids [] e = (refl, λ k. refl)
  iterate-numbered_from c comments n ids (comment ∷ rows) e =
      iterate-numbered_from (c + 1) (comments + 1) n ids rows (omega arith)
  iterate-numbered_from c comments n ids (id_map new ∷ rows) e =
      iterate-numbered_from (c + 1) (comments + 1) n (some new) rows (omega arith)
  iterate-numbered_from c comments n ids (skipped ∷ rows) e =
      iterate-numbered_from (c + 1) comments (n + 1) ids rows (omega arith)
  iterate-numbered_from c comments n ids (broken ∷ rows) e = (refl, λ k. absurd k)
  iterate-numbered_from c comments n ids (values vs ∷ rows) e =
      let place : c - comments ≡ n = omega arith in
      let (same, found) = iterate-numbered_from (c + 1) comments (n + 1) ids rows (omega arith) in
      rw (place, iterate)
        (handled n ids (handler n vs) (iterate handler (c + 1) comments ids rows)
          (numbered (n + 1) (rows_only rows)) (last_map ids rows) same found)

  -- Read to its end without an exception or with one, the reader gives each row that it does not skip,
  -- through its handler, under the number of lines before it that are no comments, whatever comments
  -- stand between; a row that is skipped has a number too. Without an exception, the ids are those of
  -- the last comment that lists ids, or none.
  pub iterate-numbered :
      (rows : List (Line F))
      → ((iterate handler 0 0 none rows).0 ≡ numbered 0 (rows_only rows))
        × (IsOk (iterate handler 0 0 none rows).0
            → (iterate handler 0 0 none rows).1 ≡ last_map none rows)
  iterate-numbered rows = iterate-numbered_from 0 0 0 none rows (omega arith)
