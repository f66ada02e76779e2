-- ===== src/Trace/Update/Extracted.antt =====
-- clean_sumo_traces.py: what `extract_steps` returns is what `update_route` takes.
use crownet.Floats.{Floats}
use crownet.Prelude.{
  ℕ, ◌≡◌, ◌∙◌, refl, sym, ap, ◌==◌, Bool, true, false, Option, none, some, List, [], ◌∷◌, map,
  if◌then◌else◌, nat_eq, lookup, has_key, contains, beq_self, ok, err, value_error, key_error,
  or_raise, ◌>>=◌, returned, ok_inj, arith,
}
use crownet.Trace.{TracePoint, Trace}
use crownet.Trace.Read.{BmRow, unique}
use crownet.Trace.Seek.{BmSumoStep, get_step_at}
use crownet.Trace.Seek.Times.{StepAt, get_step_at-first}
use crownet.Trace.Extract.{
  TimeIdMapping, TimeStep, time_id_records, empty_traces, collect, traces_of, create_steps,
  extract_steps,
}
use crownet.Trace.Extract.Copies.{HasKeys}
use crownet.Trace.Extract.Entries.{steps_for, with_traces, repeated, extract_steps_lem}
use crownet.Trace.Update.{
  Steps, Traces, id_of, subset_keys, same_keys, dict_by_id, RouteFiles, update_persons,
  update_route,
}
use crownet.Trace.Update.Sorted.{steps_of, dict_by_id_lem}
use crownet.Trace.Update.Sorted
use crownet.Trace.Update.Ids.{
  row_ids, record_ids, sumo_of, or_true, contains-unique_from, sumo_of-same, record_ids-sumo_of,
  has_key-empty_traces, iff_eq, or_nothing,
}

pub records-HasKeys :
    {F V : Type 0} (records : List (TimeIdMapping F)) (d : List (ℕ × V))
    → ((k : ℕ) → contains (record_ids records) k ≡ true → has_key k d ≡ true)
    → HasKeys records d
records-HasKeys [] d all = tt
records-HasKeys (r ∷ records) d all = (
  all r.sumo_id (rw (beq_self r.sumo_id) refl),
  records-HasKeys records d
      λ k h. all k (or_true (k == r.sumo_id) (contains (record_ids records) k) h),
)

contains-keys :
    {V : Type 0} (d : List (ℕ × V)) (k : ℕ) → contains (map (λ p. p.0) d) k ≡ has_key k d
contains-keys [] k = refl
contains-keys ((j, v) ∷ d) k = ground (arith, contains-keys d k)

module _ (R : Floats) where
  open R use {F}

  subset_keys_of :
      {V W : Type 0} (d : List (ℕ × V)) (f : List (ℕ × W))
      → ((k : ℕ) → has_key k d ≡ true → has_key k f ≡ true)
      → subset_keys R d f ≡ true
  subset_keys_of [] f all = refl
  subset_keys_of ((k, v) ∷ d) f all =
      rw (contains-keys f k, all k (rw (beq_self k, has_key) refl))
        (subset_keys_of d f λ j h. all j (ground (arith, h)))

  get_step_at-sumo_id :
      (time : F) (bm_id sumo_id : ℕ) (t : Trace F) (s : BmSumoStep F)
      → (get_step_at R time bm_id sumo_id t).0 ≡ ok s
      → s.sumo_id ≡ sumo_id
  get_step_at-sumo_id time bm_id sumo_id t s made =
      let (r, first, at) = get_step_at-first R time bm_id sumo_id t in kept r at
    where
      kept :
          (r : Option ℕ)
          → StepAt R time bm_id sumo_id t r (get_step_at R time bm_id sumo_id t)
          → s.sumo_id ≡ sumo_id
      kept none e = absurd (let q : err value_error ≡ ok s = sym (ap (λ p. p.0) e) ∙ made in cc)
      kept (some k) (e_prev, e_now, before, now, e) =
          sym
            (ap (λ r. elim r [ ok s ↦ s.sumo_id | err raised ↦ 0 ]) (sym (ap (λ p. p.0) e) ∙ made))

  steps_for-ids :
      (records : List (TimeIdMapping F)) (d : List (ℕ × Trace F)) (steps : List (BmSumoStep F))
      → steps_for R records d ≡ ok steps
      → map (id_of R true) steps ≡ record_ids records
  steps_for-ids [] d steps made = ap (map (id_of R true)) (sym (ok_inj [] steps made))
  steps_for-ids (r ∷ records) d steps made =
      let (t, found, next) =
        returned (or_raise (lookup r.sumo_id d) key_error)
          (λ t. (get_step_at R r.time r.bm_id r.sumo_id t).0 >>= λ s.
            steps_for R records d >>= λ more. ok (s ∷ more))
          steps made in
      let (s, step, rest) =
        returned (get_step_at R r.time r.bm_id r.sumo_id t).0
          (λ s. steps_for R records d >>= λ more. ok (s ∷ more)) steps next in
      let (more, others, last) =
        returned (steps_for R records d) (λ more. ok (s ∷ more)) steps rest in
      ap (map (id_of R true)) (sym (ok_inj (s ∷ more) steps last))
      ∙ rw
          (
            get_step_at-sumo_id r.time r.bm_id r.sumo_id t s step,
            steps_for-ids records d more others,
          )
          refl

  -- The pedestrians with a trace are those with a step.
  extracted_keys :
      (fcd : List (TimeStep F)) (records : List (TimeIdMapping F)) (k : ℕ)
      (empty : List (ℕ × List (TracePoint F))) (traces : List (ℕ × Trace F))
      → lookup k traces ≡ repeated R fcd records k (lookup k empty)
      → has_key k traces ≡ has_key k empty
  extracted_keys fcd records k empty traces e = rw (e, has_key) (go (lookup k empty))
    where
      go :
          (o : Option (List (TracePoint F)))
          → (elim (repeated R fcd records k o) [ none ↦ false | some t ↦ true ])
            ≡ (elim o [ none ↦ false | some points ↦ true ])
      go none = refl
      go (some points) = refl

  same_keys_of :
      (d : Steps R) (traces : Traces R)
      → ((k : ℕ) → has_key k d ≡ has_key k traces)
      → same_keys R d traces ≡ true
  same_keys_of d traces same =
      rw
        (
          subset_keys_of d traces (λ k h. sym (same k) ∙ h),
          subset_keys_of traces d (λ k h. same k ∙ h),
        )
        refl

  dict_keys :
      (steps : List (BmSumoStep F)) (d : Steps R) (l : ℕ → List (BmSumoStep F)) (k : ℕ)
      → lookup k d ≡ (if contains (map (id_of R true) steps) k then some (l k) else none)
      → has_key k d ≡ contains (map (id_of R true) steps) k
  dict_keys steps d l k e = rw (e, has_key) (go (contains (map (id_of R true) steps) k))
    where
      go : (b : Bool) → (elim (if b then some (l k) else none) [ none ↦ false | some x ↦ true ]) ≡ b
      go true = refl
      go false = refl

  begun :
      (by_time : List (BmRow F) → List (BmRow F)) (fcd : List (TimeStep F))
      (violations : List (BmRow F)) (ids : List ℕ) (end : List (BmSumoStep F) × Traces R)
      → extract_steps R by_time fcd violations ids ≡ ok end
      → (records : List (TimeIdMapping F)) × (empty : List (ℕ × List (TracePoint F)))
        × (time_id_records ids (by_time violations) ≡ ok records)
        × (empty_traces ids (unique violations) [] ≡ ok empty)
  unfolding extract_steps
  begun by_time fcd violations ids end ran =
      let (records, mapped, next) =
        returned (time_id_records ids (by_time violations))
          (λ records. empty_traces ids (unique violations) [] >>= λ empty.
            collect fcd records empty >>= λ collected.
            create_steps R records (traces_of R collected))
          end ran in
      let (empty, made, rest) =
        returned (empty_traces ids (unique violations) [])
          (λ empty. collect fcd records empty >>= λ collected.
            create_steps R records (traces_of R collected))
          end next in
      (records, empty, mapped, made)

  -- The records are of the pedestrians for which a list has been made.
  pub listed :
      (by_time : List (BmRow F) → List (BmRow F)) (violations : List (BmRow F)) (ids : List ℕ)
      (records : List (TimeIdMapping F)) (empty : List (ℕ × List (TracePoint F)))
      → ((b : ℕ) → contains (row_ids (by_time violations)) b ≡ contains (row_ids violations) b)
      → time_id_records ids (by_time violations) ≡ ok records
      → empty_traces ids (unique violations) [] ≡ ok empty
      → (k : ℕ) → contains (record_ids records) k ≡ has_key k empty
  listed by_time violations ids records empty same mapped made k =
      ap (λ l. contains l k) (record_ids-sumo_of ids (by_time violations) records mapped)
      ∙ (iff_eq (contains (sumo_of ids (row_ids (by_time violations))) k)
            (contains (sumo_of ids (unique violations)) k)
            (sumo_of-same ids (row_ids (by_time violations)) (unique violations)
              (λ b. same b ∙ sym (contains-unique_from [] violations b)) k)
            (sumo_of-same ids (unique violations) (row_ids (by_time violations))
              (λ b. contains-unique_from [] violations b ∙ sym (same b)) k)
          ∙ (or_nothing (contains (sumo_of ids (unique violations)) k)
              ∙ sym (has_key-empty_traces ids (unique violations) [] empty k made)))

  -- Where the sorted violations are of the same pedestrians as the violations: the steps and the traces
  -- that `extract_steps` returns belong together. `dict_by_id` makes a dict of the steps, and
  -- `update_route` on this dict and the traces never passes a run over that has no backup: it updates
  -- its persons and keeps the file as it was.
  pub extract_steps-update_route :
      (by_time : List (BmRow F) → List (BmRow F)) (fcd : List (TimeStep F))
      (violations : List (BmRow F)) (ids : List ℕ) (steps : List (BmSumoStep F)) (traces : Traces R)
      (files : RouteFiles)
      → ((b : ℕ) → contains (row_ids (by_time violations)) b ≡ contains (row_ids violations) b)
      → extract_steps R by_time fcd violations ids ≡ ok (steps, traces)
      → files.backup ≡ none
      → (d : Steps R) × (dict_by_id R steps true ≡ ok d)
        × (update_route R d traces files ≡ (
            update_persons R d traces files.route >>= λ after.
            ok (record { route = after; backup = some files.route })))
  unfolding update_route
  extract_steps-update_route by_time fcd violations ids steps traces files same ran fresh =
      let (records, empty, mapped, made) = begun by_time fcd violations ids (steps, traces) ran in
      let ids_of : (k : ℕ) → contains (record_ids records) k ≡ has_key k empty =
        λ k. listed by_time violations ids records empty same mapped made k in
      let (traces', extracted, entries) =
        extract_steps_lem R by_time fcd violations ids records empty mapped made
          (records-HasKeys records empty λ k h. sym (ids_of k) ∙ h) in
      let (steps', stepped, both) =
        returned (steps_for R records traces') (with_traces R traces') (steps, traces)
          (sym extracted ∙ ran) in
      let (d, dict, found) = dict_by_id_lem R true steps in
      let step_keys : (k : ℕ) → contains (map (id_of R true) steps) k ≡ has_key k empty = λ k.
        ap (λ l. contains (map (id_of R true) l) k)
          (sym (ap (λ p. p.0) (ok_inj (steps', traces') (steps, traces) both)))
        ∙ (ap (λ l. contains l k) (steps_for-ids records traces' steps' stepped) ∙ ids_of k) in
      let trace_keys : (k : ℕ) → has_key k traces ≡ has_key k empty = λ k.
        ap (has_key k) (sym (ap (λ p. p.1) (ok_inj (steps', traces') (steps, traces) both)))
        ∙ extracted_keys fcd records k empty traces' (entries k) in
      let belong : same_keys R d traces ≡ true = same_keys_of d traces λ k.
        dict_keys steps d (λ j. steps_of R true j (Sorted.by_time R true steps)) k (found k)
        ∙ (step_keys k ∙ sym (trace_keys k)) in
      (d, dict, rw (fresh, belong) refl)
