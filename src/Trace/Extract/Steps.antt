-- ===== src/Trace/Extract/Steps.antt =====
-- clean_sumo_traces.py: `extract_steps` as a whole, from the rows and the output of SUMO.
use crownet.Floats.{Floats}
use crownet.Prelude.{
  ℕ, ◌≡◌, ◌∙◌, refl, sym, ap, ◌==◌, Bool, true, false, Bool-cases, inl, inr, Option, none, some,
  List, [], ◌∷◌, ◌++◌, map, filter, take, nat_eq, get_elem?, lookup, put, has_key, contains,
  beq_self, ok, ◌>>=◌,
}
use crownet.Trace.{TracePoint, Trace, new_trace}
use crownet.Trace.Read.{BmRow, unique}
use crownet.Trace.Extract.{
  TimeIdMapping, TimeStep, person_in, point_of, points_of, time_id_records, empty_traces,
  extract_steps,
}
use crownet.Trace.Extract.Copies.{copies, count}
use crownet.Trace.Extract.Entries.{steps_for, with_traces, repeated, extract_steps_lem}
use crownet.Trace.Update.Ids.{
  row_ids, record_ids, sumo_of, or_true, contains-unique_from, sumo_of-same, has_key-empty_traces,
  iff_eq, or_nothing,
}
use crownet.Trace.Update.Extracted.{records-HasKeys, listed}

-- Each of some pedestrians has an id of SUMO.
abbrev pub Named : List ℕ → (ℕ → ℕ) → List ℕ → Type 0
Named ids sumo bs = (b : ℕ) → contains bs b ≡ true → get_elem? ids b ≡ some (sumo b)

Named-tail :
    (ids : List ℕ) (sumo : ℕ → ℕ) (b : ℕ) (bs : List ℕ)
    → Named ids sumo (b ∷ bs)
    → Named ids sumo bs
Named-tail ids sumo b bs named c h = named c (or_true (c == b) (contains bs c) h)

Named-head :
    (ids : List ℕ) (sumo : ℕ → ℕ) (b : ℕ) (bs : List ℕ)
    → Named ids sumo (b ∷ bs)
    → get_elem? ids b ≡ some (sumo b)
Named-head ids sumo b bs named = named b (rw (beq_self b) refl)

sumo_of-Named :
    (ids : List ℕ) (sumo : ℕ → ℕ) (bs : List ℕ) → Named ids sumo bs → sumo_of ids bs ≡ map sumo bs
sumo_of-Named ids sumo [] named = refl
sumo_of-Named ids sumo (b ∷ bs) named =
    rw (Named-head ids sumo b bs named, sumo_of-Named ids sumo bs (Named-tail ids sumo b bs named))
      refl

module _ {F : Type 0} where
  abbrev pub at_step : F → TracePoint F → TracePoint F
  at_step t p = record p { time = t }

  -- The points of a pedestrian: in each time step, the first entry with its id, with the step's time.
  abbrev pub seen_in : ℕ → TimeStep F → List (TracePoint F)
  seen_in k s = map (at_step s.time) (take 1 (filter (λ p. p.id == k) s.persons))

  abbrev pub seen : ℕ → List (TimeStep F) → List (TracePoint F)
  seen k [] = []
  seen k (s ∷ steps) = seen_in k s ++ seen k steps

  point_of-first :
      (t : F) (k : ℕ) (persons : List (TracePoint F)) (points : List (TracePoint F))
      → point_of t (person_in k persons) points
        ≡ map (at_step t) (take 1 (filter (λ p. p.id == k) persons)) ++ points
  point_of-first t k [] points = refl
  point_of-first t k (p ∷ persons) points = elim (Bool-cases (p.id == k)) [
    | inl e ↦ rw e refl
    | inr e ↦ rw e (point_of-first t k persons points)
  ]

  points_of-seen : (k : ℕ) (fcd : List (TimeStep F)) → points_of k fcd ≡ seen k fcd
  points_of-seen k [] = refl
  points_of-seen k (s ∷ steps) =
      ap (point_of s.time (person_in k s.persons)) (points_of-seen k steps)
      ∙ point_of-first s.time k s.persons (seen k steps)

  -- The time of a row with both ids of its pedestrian.
  abbrev pub record_of : (ℕ → ℕ) → BmRow F → TimeIdMapping F
  record_of sumo r = record { time = r.time; sumo_id = sumo r.id; bm_id = r.id }

  time_id_records-Named :
      (ids : List ℕ) (sumo : ℕ → ℕ) (rows : List (BmRow F))
      → Named ids sumo (row_ids rows)
      → time_id_records ids rows ≡ ok (map (record_of sumo) rows)
  time_id_records-Named ids sumo [] named = refl
  time_id_records-Named ids sumo (r ∷ rows) named =
      rw
        (
          Named-head ids sumo r.id (row_ids rows) named,
          time_id_records-Named ids sumo rows (Named-tail ids sumo r.id (row_ids rows) named),
        )
        refl

  empty_traces-Named :
      (ids : List ℕ) (sumo : ℕ → ℕ) (bs : List ℕ) (d : List (ℕ × List (TracePoint F)))
      → Named ids sumo bs
      → (empty : List (ℕ × List (TracePoint F))) × (empty_traces ids bs d ≡ ok empty)
  empty_traces-Named ids sumo [] d named = (d, refl)
  empty_traces-Named ids sumo (b ∷ bs) d named =
      let (empty, made) =
        empty_traces-Named ids sumo bs (put (sumo b) [] d) (Named-tail ids sumo b bs named) in
      (empty, rw (Named-head ids sumo b bs named) made)

module _ (R : Floats) where
  open R use {F}

  -- The trace of all points of a pedestrian, listed once for each of its records; there is none for a
  -- pedestrian without a violation.
  abbrev pub trace_for : List (TimeStep F) → List (TimeIdMapping F) → ℕ → Bool → Option (Trace F)
  trace_for fcd records k false = none
  trace_for fcd records k true = some (new_trace R (copies (count k records) (seen k fcd)))

  repeated-trace_for :
      (fcd : List (TimeStep F)) (records : List (TimeIdMapping F)) (k : ℕ)
      (o : Option (List (TracePoint F))) (b : Bool)
      → (elim o [ none ↦ false | some points ↦ true ]) ≡ b
      → repeated R fcd records k o ≡ trace_for fcd records k b
  repeated-trace_for fcd records k none true h = cc
  repeated-trace_for fcd records k none false h = refl
  repeated-trace_for fcd records k (some points) false h = cc
  repeated-trace_for fcd records k (some points) true h =
      ap (λ l. some (new_trace R (copies (count k records) l))) (points_of-seen k fcd)

  -- The keys of the empty lists.
  keys_of :
      (ids : List ℕ) (sumo : ℕ → ℕ) (violations : List (BmRow F))
      (empty : List (ℕ × List (TracePoint F)))
      → Named ids sumo (row_ids violations)
      → empty_traces ids (unique violations) [] ≡ ok empty
      → (k : ℕ) → has_key k empty ≡ contains (map sumo (row_ids violations)) k
  keys_of ids sumo violations empty named made k =
      has_key-empty_traces ids (unique violations) [] empty k made
      ∙ (sym (or_nothing (contains (sumo_of ids (unique violations)) k))
          ∙ (iff_eq (contains (sumo_of ids (unique violations)) k)
                (contains (sumo_of ids (row_ids violations)) k)
                (sumo_of-same ids (unique violations) (row_ids violations)
                  (contains-unique_from [] violations) k)
                (sumo_of-same ids (row_ids violations) (unique violations)
                  (λ b. sym (contains-unique_from [] violations b)) k)
              ∙ ap (λ l. contains l k) (sumo_of-Named ids sumo (row_ids violations) named)))

  -- Where each pedestrian with a violation has an id of SUMO and the sorted violations are of the same
  -- pedestrians, `extract_steps` returns the step of each sorted violation, in their order, each read by
  -- `get_step_at` in the trace of its pedestrian, and the traces; or it raises what the first of these
  -- reads raises. There is a trace for each pedestrian with a violation and no other, and the trace is
  -- that of all the pedestrian's points, the first entry of the pedestrian in each time step of the
  -- output, in the order of the time steps, listed once for each of its violations.
  pub extract_steps-copies :
      (by_time : List (BmRow F) → List (BmRow F)) (fcd : List (TimeStep F))
      (violations : List (BmRow F)) (ids : List ℕ) (sumo : ℕ → ℕ)
      → Named ids sumo (row_ids violations)
      → ((b : ℕ) → contains (row_ids (by_time violations)) b ≡ contains (row_ids violations) b)
      → (traces : List (ℕ × Trace F)) × (extract_steps R by_time fcd violations ids ≡ (
          steps_for R (map (record_of sumo) (by_time violations)) traces >>= with_traces R traces))
        × ((k : ℕ)
            → lookup k traces
              ≡ trace_for fcd
                  (map (record_of sumo) (by_time violations))
                  k
                  (contains (map sumo (row_ids violations)) k))
  extract_steps-copies by_time fcd violations ids sumo named same =
      let records = map (record_of sumo) (by_time violations) in
      let mapped =
        time_id_records-Named ids sumo (by_time violations) λ b h. named b (sym (same b) ∙ h) in
      let (empty, made) =
        empty_traces-Named ids sumo (unique violations) []
          λ b h. named b (sym (contains-unique_from [] violations b) ∙ h) in
      let listed_of : (k : ℕ) → contains (record_ids records) k ≡ has_key k empty =
        λ k. listed R by_time violations ids records empty same mapped made k in
      let (traces, extracted, entries) =
        extract_steps_lem R by_time fcd violations ids records empty mapped made
          (records-HasKeys records empty λ k h. sym (listed_of k) ∙ h) in
      (
        traces,
        extracted,
        λ k.
            entries k
            ∙ repeated-trace_for fcd records k (lookup k empty)
                (contains (map sumo (row_ids violations)) k)
                (keys_of ids sumo violations empty named made k),
      )
