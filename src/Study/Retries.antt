-- ===== src/Study/Retries.antt =====
-- study.py: how long a study waits for memory.
use mathlib.Core.List.{append_assoc, append-nil}
use mathlib.Core.Path.{subst, fun_ext}
use crownet.Prelude.{
  ℕ, zero, suc, ◌+◌, ◌<◌, ◌≡◌, ◌∙◌, refl, sym, ap, inl, inr, ltb, leb, Bool, true, false,
  Bool-cases, Option, none, some, List, [], ◌∷◌, ◌++◌, Text, FirstHit, FirstHit-suc-none,
  FirstHit-suc-some, arith,
}
use crownet.SumoRuns.{join_path}
use crownet.Study.Memory.{
  Mobility, Variation, Event, made_dir, slept, ran, Host, Machine, get_results_dir, fitting,
  max_parallel_sims, wait_for_memory, run_parameter_study,
}

abbrev pub sleeps : ℕ → List Event
sleeps zero = []
sleeps (suc n) = slept ∷ sleeps n

module _ (H : Host) (m : Mobility) where
  -- The reading with a number leaves room for a simulation.
  abbrev pub fits : ℕ → ℕ → Bool
  fits start i = leb 1 (fitting H m (start + i))

  -- What the loop returns, of a number of retries, when the first reading was number `start` and the
  -- reading `r` after it is the first that leaves room.
  abbrev pub waited : ℕ → ℕ → List Event → Option ℕ → ℕ × Machine
  waited n start events none = (0, record { readings = start + n + 1; events = events ++ sleeps n })
  waited n start events (some k) =
      (fitting H m (start + k), record { readings = start + k + 1; events = events ++ sleeps k })

  fits-suc : (start : ℕ) → fits (start + 1) ≡ (λ i. fits start (suc i))
  fits-suc start =
      fun_ext λ i.
        let e : start + 1 + i ≡ start + suc i = omega arith in ap (λ j. leb 1 (fitting H m j)) e

  -- The first reading leaves room, or it does not and the loop has no room either.
  at_once :
      (l start : ℕ) → ltb (fitting H m start) 1 ≡ false → FirstHit (fits start) (suc l) (some 0)
  at_once l start enough =
      let z : start + 0 ≡ start = omega arith in
      (omega arith, rw z (ground (arith, enough)), λ i h. absurd (omega (arith, h)))

  too_few : (start : ℕ) → ltb (fitting H m start) 1 ≡ true → fits start 0 ≡ false
  too_few start few = let z : start + 0 ≡ start = omega arith in rw z (ground (arith, few))

  waited-suc :
      (n start : ℕ) (events : List Event) (r : Option ℕ)
      → waited n (start + 1) (events ++ (slept ∷ [])) r
        ≡ waited (suc n) start events (elim r [ none ↦ none | some k ↦ some (suc k) ])
  waited-suc n start events none =
      let e : start + 1 + n + 1 ≡ start + suc n + 1 = omega arith in
      rw (e, append_assoc events (slept ∷ []) (sleeps n)) refl
  waited-suc n start events (some k) =
      let e : start + 1 + k ≡ start + suc k = omega arith in
      rw (e, append_assoc events (slept ∷ []) (sleeps k)) refl

  first_waited :
      (n start : ℕ) (events : List Event)
      → waited n start events (some 0)
        ≡ (fitting H m start, record { readings = start + 1; events = events })
  first_waited n start events =
      let z : start + 0 ≡ start = omega arith in rw (z, append-nil events) refl

  wait_for_memory_lem :
      (n start : ℕ) (events : List Event)
      → (r : Option ℕ) × FirstHit (fits start) (suc n) r
        × (wait_for_memory H m n
              (fitting H m start)
              (record { readings = start + 1; events = events })
            ≡ waited n start events r)
  unfolding wait_for_memory max_parallel_sims
  wait_for_memory_lem zero start events = elim (Bool-cases (ltb (fitting H m start) 1)) [
    | inl few ↦ (
      none,
      λ i h. only i h few,
      let z : start + 0 + 1 ≡ start + 1 = omega arith in
          let nothing : fitting H m start ≡ 0 = ground (arith, few) in
          rw (z, append-nil events, nothing) refl,
    )
    | inr enough ↦ (some 0, at_once 0 start enough, sym (first_waited 0 start events))
  ]
    where
      only : (i : ℕ) → i < 1 → ltb (fitting H m start) 1 ≡ true → fits start i ≡ false
      only zero h few = too_few start few
      only (suc i) h few = absurd (omega (arith, h))
  wait_for_memory_lem (suc n) start events = elim (Bool-cases (ltb (fitting H m start) 1)) [
    | inl few ↦
        let (r, first, ran_on) = wait_for_memory_lem n (start + 1) (events ++ (slept ∷ [])) in
        (
          elim r [ none ↦ none | some k ↦ some (suc k) ],
          later r few (subst (λ test. FirstHit test (suc n) r) (fits-suc start) first),
          rw (few, wait_for_memory) (ran_on ∙ waited-suc n start events r),
        )
    | inr enough ↦ (
      some 0,
      at_once (suc n) start enough,
      rw (enough, wait_for_memory) (sym (first_waited (suc n) start events)),
    )
  ]
    where
      later :
          (r : Option ℕ)
          → ltb (fitting H m start) 1 ≡ true
          → FirstHit (λ i. fits start (suc i)) (suc n) r
          → FirstHit (fits start) (suc (suc n)) (elim r [ none ↦ none | some k ↦ some (suc k) ])
      later none few h = FirstHit-suc-none (fits start) (suc n) (too_few start few) h
      later (some k) few h = FirstHit-suc-some (fits start) (suc n) k (too_few start few) h

  -- What a study adds to the events before it, when the memory has been read `i` times before.
  abbrev pub started : Text → Text → List Variation → Machine → Option ℕ → Machine
  started dir config par_var s r =
      let (nr_parallel, after) = waited 20 s.readings (s.events ++ (made_dir dir ∷ [])) r in
      record after {
        events = after.events ++ (ran config m (H.new_seed_variation par_var) nr_parallel ∷ []);
      }

  -- A configuration whose directory is not there runs once. The memory is read at most 21 times, with a
  -- pause before each reading but the first; the number of simulations at a time is the one of the first
  -- reading that leaves room for any, and it is 0 if none of the 21 does.
  pub run_parameter_study-first :
      (base_path config : Text) (par_var : List Variation) (s : Machine)
      → H.dir_exists (join_path (get_results_dir H base_path) config) ≡ false
      → (r : Option ℕ) × FirstHit (fits s.readings) 21 r
        × (run_parameter_study H base_path m config par_var s
            ≡ started (get_results_dir H base_path) config par_var s r)
  unfolding run_parameter_study max_parallel_sims
  run_parameter_study-first base_path config par_var s new =
      let (r, first, ran_on) =
        wait_for_memory_lem 20 s.readings
          (s.events ++ (made_dir (get_results_dir H base_path) ∷ [])) in
      (
        r,
        first,
        rw new (
            ap
              (λ w. record w.1 {
                events = w.1.events ++ (ran config m (H.new_seed_variation par_var) w.0 ∷ []);
              })
              ran_on),
      )
