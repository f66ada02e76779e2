-- ===== src/Trace/Extract/Entries.antt =====
-- clean_sumo_traces.py: `extract_steps` after its records and empty lists have been made.
use mathlib.Core.Option
use mathlib.Core.Path.{subst}
use crownet.Floats.{Floats}
use crownet.Prelude.{
  ℕ, ◌≡◌, ◌∙◌, refl, sym, ap, inl, inr, ◌==◌, true, false, Bool-cases, Option-cases, Option, none,
  some, List, [], ◌∷◌, get_elem?, nat_eq, lookup, put, Result, ok, err, key_error, index_error,
  ◌>>=◌, or_raise, some_inj, ok_inj, returned,
}
use crownet.Trace.{TracePoint, Trace, new_trace}
use crownet.Trace.Read.{BmRow, unique}
use crownet.Trace.Seek.{BmSumoStep, get_step_at}
use crownet.Trace.Seek.Times.{get_step_at-first, StepAt}
use crownet.Trace.Extract.{
  TimeIdMapping, TimeStep, points_of, time_id_records, empty_traces, traces_of, create_steps,
  extract_steps,
}
use crownet.Trace.Extract.Copies.{copies, count, HasKeys, grown, collect-copies}

-- Writing what a key has changes nothing.
put_self : {V : Type 0} (k : ℕ) (v : V) (d : List (ℕ × V)) → lookup k d ≡ some v → put k v d ≡ d
put_self k v [] h = cc
put_self k v ((j, w) ∷ d) h = elim (Bool-cases (k == j)) [
  | inl e ↦ rw e (ap (λ u. (j, u) ∷ d) (sym (some_inj w v (now e))))
  | inr e ↦ rw e (ap (λ r. (j, w) ∷ r) (put_self k v d (later e)))
]
  where
    now : (k == j) ≡ true → some w ≡ some v
    now e = (rw e refl) ∙ h

    later : (k == j) ≡ false → lookup k d ≡ some v
    later e = (rw e refl) ∙ h

-- Every value is the empty list.
abbrev IsEmptied : {A : Type 0} → List (ℕ × List A) → Type 0
IsEmptied [] = Unit
IsEmptied ((k, xs) ∷ d) = (xs ≡ []) × IsEmptied d

put-IsEmptied : {A : Type 0} (k : ℕ) (d : List (ℕ × List A)) → IsEmptied d → IsEmptied (put k [] d)
put-IsEmptied k [] h = (refl, tt)
put-IsEmptied k ((j, xs) ∷ d) h = elim (Bool-cases (k == j)) [
  | inl e ↦ rw e (refl, h.1)
  | inr e ↦ rw e (h.0, put-IsEmptied k d h.1)
]

lookup-IsEmptied :
    {A : Type 0} (k : ℕ) (d : List (ℕ × List A)) (xs : List A)
    → IsEmptied d
    → lookup k d ≡ some xs
    → xs ≡ []
lookup-IsEmptied k [] xs h e = cc
lookup-IsEmptied k ((j, ys) ∷ d) xs h e = elim (Bool-cases (k == j)) [
  | inl same ↦ sym (some_inj ys xs ((rw same refl) ∙ e)) ∙ h.0
  | inr other ↦ lookup-IsEmptied k d xs h.1 ((rw other refl) ∙ e)
]

empty_traces-IsEmptied :
    {F : Type 0} (ids bs : List ℕ) (d empty : List (ℕ × List (TracePoint F)))
    → IsEmptied d
    → empty_traces ids bs d ≡ ok empty
    → IsEmptied empty
empty_traces-IsEmptied ids [] d empty h e = subst (λ x. IsEmptied x) (ok_inj d empty e) h
empty_traces-IsEmptied ids (b ∷ bs) d empty h e =
    let (k, found, rest) =
      returned (or_raise (get_elem? ids b) index_error) (λ k. empty_traces ids bs (put k [] d))
        empty e in
    empty_traces-IsEmptied ids bs (put k [] d) empty (put-IsEmptied k d h) rest

module _ (R : Floats) where
  open R use {F}

  lookup-traces_of :
      (k : ℕ) (d : List (ℕ × List (TracePoint F)))
      → lookup k (traces_of R d) ≡ Option.map (new_trace R) (lookup k d)
  lookup-traces_of k [] = refl
  lookup-traces_of k ((j, points) ∷ d) = elim (Bool-cases (k == j)) [
    | inl e ↦ rw e refl
    | inr e ↦ rw e (lookup-traces_of k d)
  ]

  get_step_at_keeps :
      (time : F) (bm_id sumo_id : ℕ) (t : Trace F) → (get_step_at R time bm_id sumo_id t).1 ≡ t
  get_step_at_keeps time bm_id sumo_id t =
      let (r, first, at) = get_step_at-first R time bm_id sumo_id t in kept r at
    where
      kept :
          (r : Option ℕ)
          → StepAt R time bm_id sumo_id t r (get_step_at R time bm_id sumo_id t)
          → (get_step_at R time bm_id sumo_id t).1 ≡ t
      kept none e = ap (λ p. p.1) e
      kept (some k) (e_prev, e_now, before, now, e) = ap (λ p. p.1) e

  -- The step of each record, in the trace of its pedestrian.
  abbrev pub steps_for : List (TimeIdMapping F) → List (ℕ × Trace F) → Result (List (BmSumoStep F))
  steps_for [] d = ok []
  steps_for (r ∷ records) d = do
    t ← or_raise (lookup r.sumo_id d) key_error
    s ← (get_step_at R r.time r.bm_id r.sumo_id t).0
    more ← steps_for records d
    ok (s ∷ more)

  abbrev pub with_traces :
      List (ℕ × Trace F) → List (BmSumoStep F) → Result (List (BmSumoStep F) × List (ℕ × Trace F))
  with_traces d steps = ok (steps, d)

  abbrev after_step :
      BmSumoStep F
      → List (BmSumoStep F) × List (ℕ × Trace F)
      → Result (List (BmSumoStep F) × List (ℕ × Trace F))
  after_step s (steps, d) = ok (s ∷ steps, d)

  create_steps_lem :
      (records : List (TimeIdMapping F)) (d : List (ℕ × Trace F))
      → create_steps R records d ≡ (steps_for records d >>= with_traces d)
  unfolding create_steps
  create_steps_lem [] d = refl
  create_steps_lem (r ∷ records) d = elim (Option-cases (lookup r.sumo_id d)) [
    | inl e ↦ rw e refl
    | inr (t, e) ↦
        let same =
          ap (λ u. put r.sumo_id u d) (get_step_at_keeps r.time r.bm_id r.sumo_id t)
          ∙ put_self r.sumo_id t d e in
        rw e (
          rw (same, create_steps_lem records d)
            (go (get_step_at R r.time r.bm_id r.sumo_id t).0 (steps_for records d)))
  ]
    where
      go :
          (made : Result (BmSumoStep F)) (more : Result (List (BmSumoStep F)))
          → (made >>= λ s. more >>= with_traces d >>= after_step s)
            ≡ (made >>= (λ s. more >>= λ m. ok (s ∷ m)) >>= with_traces d)
      go (ok s) (ok m) = refl
      go (ok s) (err raised) = refl
      go (err raised) more = refl

  -- What `extract_steps` returns for each pedestrian with a row among the violations: its points, as
  -- often as it has records.
  abbrev pub repeated :
      List (TimeStep F)
      → List (TimeIdMapping F)
      → ℕ
      → Option (List (TracePoint F))
      → Option (Trace F)
  repeated fcd records k none = none
  repeated fcd records k (some points) =
      some (new_trace R (copies (count k records) (points_of k fcd)))

  pub extract_steps_lem :
      (by_time : List (BmRow F) → List (BmRow F)) (fcd : List (TimeStep F))
      (violations : List (BmRow F)) (ids : List ℕ) (records : List (TimeIdMapping F))
      (empty : List (ℕ × List (TracePoint F)))
      → time_id_records ids (by_time violations) ≡ ok records
      → empty_traces ids (unique violations) [] ≡ ok empty
      → HasKeys records empty
      → (traces : List (ℕ × Trace F)) × (extract_steps R by_time fcd violations ids
          ≡ (steps_for records traces >>= with_traces traces))
        × ((k : ℕ) → lookup k traces ≡ repeated fcd records k (lookup k empty))
  unfolding extract_steps
  extract_steps_lem by_time fcd violations ids records empty mapped made keys =
      let (d, collected, entries) = collect-copies fcd records empty keys in
      (
        traces_of R d,
        rw (mapped, made, collected) (create_steps_lem records (traces_of R d)),
        λ k.
            lookup-traces_of k d
            ∙ (ap (Option.map (new_trace R)) (entries k) ∙ grows k (lookup k empty) refl),
      )
    where
      grows :
          (k : ℕ) (o : Option (List (TracePoint F)))
          → lookup k empty ≡ o
          → Option.map (new_trace R) (grown (copies (count k records) (points_of k fcd)) o)
            ≡ repeated fcd records k o
      grows k none e = refl
      grows k (some old) e =
          let nil : old ≡ [] =
            lookup-IsEmptied k empty old
              (empty_traces-IsEmptied ids (unique violations) [] empty tt made) e in
          rw nil refl
