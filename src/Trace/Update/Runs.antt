-- ===== src/Trace/Update/Runs.antt =====
-- What `update_route` does to the persons of a route file.
use crownet.Prelude.{
  ℕ, ◌≡◌, refl, ap, Bool, true, false, Option, none, some, List, [], ◌∷◌, if◌then◌else◌, list_eq,
  nat_eq, Text, lookup, put, Result, ok, key_error, or_raise, ◌>>=◌, returned, ok_inj,
}
use crownet.Floats.{Floats}
use crownet.Trace.{Trace}
use crownet.Trace.Seek.{BmSumoStep}
use crownet.Trace.Walk.{Slice, apply_slice}
use crownet.Trace.Update.Pieces.{Piece, apply_slice-Piece, Cut, Cut-refl, Cut-trans, set_walk-Cut}
use crownet.Trace.Update.{
  Person, find_person, set_walk, collect_slices, first_piece, clean_walk, Steps, Traces,
  update_person, update_persons, same_keys, RouteFiles, update_route,
}

abbrev pair_ok {ℓ κ} : {A : Type ℓ} {B : Type κ} → A → B → Result (A × B)
pair_ok a b = ok (a, b)

module _ (R : Floats) where
  clean_walk-Piece :
      (edges : List Text) (steps : List (BmSumoStep R.F)) (t : Trace R.F) (piece : List Text)
      (end : Trace R.F)
      → clean_walk R edges steps t ≡ ok (piece, end)
      → Piece piece edges
  unfolding clean_walk first_piece
  clean_walk-Piece edges steps t piece end ran =
      let ((slices, left), collected, cut) =
        returned (collect_slices R edges steps t)
          (λ (slices, end). first_piece edges slices >>= λ piece. ok (piece, end)) (piece, end)
          ran in
      from slices left cut
    where
      from :
          (slices : List Slice) (left : Trace R.F)
          → (first_piece edges slices >>= λ piece. pair_ok piece left) ≡ pair_ok piece end
          → Piece piece edges
      from [] left h = cc
      from (s ∷ slices) left h =
          let same : apply_slice s edges ≡ piece =
            ap (λ r. r.0) (ok_inj (apply_slice s edges, left) (piece, end) h) in
          rw (← same) (apply_slice-Piece s edges)

  update_person-Cut :
      (i : ℕ) (steps : List (BmSumoStep R.F)) (traces left : Traces R) (routes after : List Person)
      → update_person R i steps traces routes ≡ ok (after, left)
      → Cut after routes
  unfolding update_person
  update_person-Cut i steps traces left routes after ran = person (find_person i routes) refl ran
    where
      same : pair_ok routes traces ≡ pair_ok after left → Cut after routes
      same h = rw (← ap (λ r. r.0) (ok_inj (routes, traces) (after, left) h)) (Cut-refl routes)

      cut :
          (edges : List Text) (p : Person)
          → find_person i routes ≡ some p
          → p.walk ≡ some edges
          → (or_raise (lookup i traces) key_error >>= λ t.
              clean_walk R edges steps t >>= λ (piece, end).
              pair_ok (set_walk i piece routes) (put i end traces))
            ≡ pair_ok after left
          → Cut after routes
      cut edges p found walks h =
          let (t, under, cleaned) =
            returned (or_raise (lookup i traces) key_error)
              (λ t. clean_walk R edges steps t >>= λ (piece, end).
                pair_ok (set_walk i piece routes) (put i end traces))
              (after, left) h in
          let ((piece, end), made, put_in) =
            returned (clean_walk R edges steps t)
              (λ (piece, end). pair_ok (set_walk i piece routes) (put i end traces)) (after, left)
              cleaned in
          rw
            (← ap (λ r. r.0)
              (ok_inj (set_walk i piece routes, put i end traces) (after, left) put_in))
            (set_walk-Cut i piece edges routes p found walks
              (clean_walk-Piece edges steps t piece end made))

      walk :
          (p : Person) (w : Option (List Text))
          → find_person i routes ≡ some p
          → p.walk ≡ w
          → (elim w [
            | none ↦ pair_ok routes traces
            | some edges ↦ or_raise (lookup i traces) key_error >>= λ t.
                clean_walk R edges steps t >>= λ (piece, end).
                pair_ok (set_walk i piece routes) (put i end traces)
          ])
            ≡ pair_ok after left
          → Cut after routes
      walk p none found walks h = same h
      walk p (some edges) found walks h = cut edges p found walks h

      person :
          (o : Option Person)
          → find_person i routes ≡ o
          → (elim o [
            | none ↦ pair_ok routes traces
            | some p ↦ elim p.walk [
              | none ↦ pair_ok routes traces
              | some edges ↦ or_raise (lookup i traces) key_error >>= λ t.
                  clean_walk R edges steps t >>= λ (piece, end).
                  pair_ok (set_walk i piece routes) (put i end traces)
            ]
          ])
            ≡ pair_ok after left
          → Cut after routes
      person none found h = same h
      person (some p) found h = walk p p.walk found refl h

  update_persons-Cut :
      (step_dict : Steps R) (traces : Traces R) (routes after : List Person)
      → update_persons R step_dict traces routes ≡ ok after
      → Cut after routes
  unfolding update_persons
  update_persons-Cut [] traces routes after ran = rw (← ok_inj routes after ran) (Cut-refl routes)
  update_persons-Cut ((i, steps) ∷ step_dict) traces routes after ran =
      let ((mid, left), updated, rest) =
        returned (update_person R i steps traces routes)
          (λ (mid, left). update_persons R step_dict left mid) after ran in
      Cut-trans after mid routes (update_persons-Cut step_dict left mid after rest)
        (update_person-Cut i steps traces left routes mid updated)

  -- Of a run without a backup, whose steps and traces belong together, `update_route` leaves, when it
  -- returns, the same persons in the same order, and of each walk a part without gaps. The backup is
  -- the file as it was. Another call on what is left, with any steps and traces, changes nothing.
  pub update_route-Cut :
      (steps steps' : Steps R) (traces traces' : Traces R) (files after : RouteFiles)
      → files.backup ≡ none
      → same_keys R steps traces ≡ true
      → update_route R steps traces files ≡ ok after
      → Cut after.route files.route
        × (after.backup ≡ some files.route)
        × (update_route R steps' traces' after ≡ ok after)
  unfolding update_route
  update_route-Cut steps steps' traces traces' files after fresh belong ran =
      let (persons, updated, wrote) =
        returned (update_persons R steps traces files.route)
          (λ after. ok (record { route = after; backup = some files.route })) after
          (opened files.backup (same_keys R steps traces) fresh belong ran) in
      let same : record { route = persons; backup = some files.route } ≡ after =
        ok_inj (record { route = persons; backup = some files.route }) after wrote in
      rw (← same) (update_persons-Cut steps traces files.route persons updated, refl, refl)
    where
      opened :
          (o : Option (List Person)) (b : Bool)
          → o ≡ none
          → b ≡ true
          → (elim o [
            | some kept ↦ ok files
            | none ↦
                if b
                then (update_persons R steps traces files.route >>= λ after.
                    ok (record { route = after; backup = some files.route }))
                else ok files
          ])
            ≡ ok after
          → (update_persons R steps traces files.route >>= λ after.
              ok (record { route = after; backup = some files.route }))
            ≡ ok after
      opened none true p q h = h
      opened none false p q h = cc
      opened (some kept) b p q h = cc
