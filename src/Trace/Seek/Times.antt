-- ===== src/Trace/Seek/Times.antt =====
-- `go_to_time` stops at the first point that is due, and `get_step_at` puts the cursor back.
use mathlib.Core.Option
use crownet.Prelude.{
  ℕ, zero, suc, ◌+◌, ◌-◌, ◌<◌, ◌≡◌, refl, ap, ◌==◌, inl, inr, Bool, true, false, ◌&&◌, Option, none,
  some, List, [], ◌∷◌, arith, length, get_elem?, get_elem?-lt, Bool-cases, leb, if◌then◌else◌,
  FirstHit, FirstHit-suc-none, FirstHit-suc-some, Result, ok, err, value_error,
}
use crownet.Floats.{Floats}
use crownet.Trace.{TracePoint, Trace, dist, calc_speed}
use crownet.Trace.Seek.{BmSumoStep, seek, go_to_time, step_here, get_step_at, restore, resume}

module _ (R : Floats) where
  open R use {F, lt, eq}

  -- Whether a point stops the loop, by its number.
  abbrev pub due : F → Bool → ℕ → TracePoint F → Bool
  due time exact i p = if exact then eq p.time time else lt time p.time && leb 1 i

  -- The same for the point with a number, counted on from the first point of a list.
  abbrev due_at : F → Bool → ℕ → List (TracePoint F) → ℕ → Bool
  due_at time exact n [] i = false
  due_at time exact n (p ∷ points) zero = due time exact n p
  due_at time exact n (p ∷ points) (suc i) = due_at time exact (suc n) points i

  -- Where the cursor goes for the point that stops the loop.
  abbrev pub landing : Bool → ℕ → ℕ
  landing exact k = if exact then k else k - 1

  -- What the loop returns for the point that stops it.
  abbrev found : Bool → ℕ → Option ℕ → Option ℕ
  found exact n = Option.map (λ k. landing exact (n + k))

  abbrev Seeks : F → Bool → ℕ → List (TracePoint F) → Option ℕ → Type 0
  Seeks time exact n points r =
      FirstHit (due_at time exact n points) (length points) r
      × (seek R time exact n points ≡ found exact n r)

  seek-later :
      (time : F) (exact : Bool) (n : ℕ) (p : TracePoint F) (points : List (TracePoint F))
      → due time exact n p ≡ false
      → (r : Option ℕ) → Seeks time exact (suc n) points r
      → (q : Option ℕ) × Seeks time exact n (p ∷ points) q
  unfolding seek
  seek-later time exact n p points go none (h, e) = (
    none,
    (FirstHit-suc-none (due_at time exact n (p ∷ points)) (length points) go h, rw (go, seek) e),
  )
  seek-later time exact n p points go (some k) (h, e) =
      let shift : n + suc k ≡ suc n + k = omega arith in
      (
        some (suc k),
        (
          FirstHit-suc-some (due_at time exact n (p ∷ points)) (length points) k go h,
          rw (go, shift) e,
        ),
      )

  seek-Seeks :
      (time : F) (exact : Bool) (n : ℕ) (points : List (TracePoint F))
      → (r : Option ℕ) × Seeks time exact n points r
  unfolding seek
  seek-Seeks time exact n [] = (none, (λ i h. elim h [ ], refl))
  seek-Seeks time exact n (p ∷ points) = elim (Bool-cases (due time exact n p)) [
    | inl stop ↦
        let z : n + 0 ≡ n = omega arith in
        (some 0, ((omega arith, stop, λ i h. elim h [ ]), rw (stop, z)))
    | inr go ↦
        let (r, s) = seek-Seeks time exact (suc n) points in seek-later time exact n p points go r s
  ]

  -- The point with a number stops the loop of `go_to_time` over the whole trace.
  abbrev pub stops : F → Bool → Trace F → ℕ → Bool
  stops time exact t i = due_at time exact 0 t.points i

  -- How `go_to_time` ends, from the first point that stops it.
  abbrev pub gone : Bool → Trace F → Option ℕ → Result (Unit {0}) × Trace F
  gone exact t none = (err value_error, t)
  gone exact t (some k) = (ok tt, record t { head = some (landing exact k) })

  -- `go_to_time` goes to the first point that is due, or to the one before it if the match is not
  -- exact; if no point is due, it raises `ValueError` and leaves the cursor alone.
  pub go_to_time-first :
      (time : F) (exact : Bool) (t : Trace F)
      → (r : Option ℕ) × FirstHit (stops time exact t) (length t.points) r
        × (go_to_time R time exact t ≡ gone exact t r)
  unfolding go_to_time
  go_to_time-first time exact t =
      let (r, (first, sought)) = seek-Seeks time exact 0 t.points in (r, first, arrive r sought)
    where
      arrive :
          (r : Option ℕ)
          → seek R time exact 0 t.points ≡ found exact 0 r
          → go_to_time R time exact t ≡ gone exact t r
      arrive none e = rw (e, go_to_time)
      arrive (some k) e = let z : 0 + k ≡ k = omega arith in rw (e, z, go_to_time)

  -- How `get_step_at` ends, from the first point that has the time.
  abbrev pub StepAt : F → ℕ → ℕ → Trace F → Option ℕ → Result (BmSumoStep F) × Trace F → Type 0
  StepAt time bm_id sumo_id t none res = res ≡ (err value_error, t)
  StepAt time bm_id sumo_id t (some k) res =
      (e_prev e_now : TracePoint F) × (get_elem? t.points (k - 1) ≡ some e_prev)
      × (get_elem? t.points k ≡ some e_now)
      × (res ≡ (
        ok (record {
          bm_id = bm_id;
          sumo_id = sumo_id;
          time = time;
          dist = dist R e_now e_prev;
          speed = calc_speed R e_now e_prev;
          edge_1 = e_prev.edge;
          edge_2 = e_now.edge;
        }),
        t,
      ))

  step_here-StepAt :
      (time : F) (bm_id sumo_id k : ℕ) (t : Trace F)
      → k < length t.points
      → StepAt time bm_id sumo_id t (some k) (
          restore R t.head
            (step_here R time bm_id sumo_id (record t { head = some k }))
            (record t { head = some k }))
  unfolding step_here
  step_here-StepAt time bm_id sumo_id zero t inside =
      let (p, at) = get_elem?-lt t.points zero inside in (p, p, at, at, rw at)
  step_here-StepAt time bm_id sumo_id (suc k) t inside =
      let (q, at) = get_elem?-lt t.points (suc k) inside in
      let (p, before) = get_elem?-lt t.points (suc k - 1) (omega arith) in
      let later : (suc k == 0) ≡ false = ground arith in (p, q, before, at, rw (at, later, before))

  -- `get_step_at` gives the step into the first point that has the time, from the point before it
  -- (from itself at the start of the trace), or raises `ValueError` if no point has the time.
  -- In all cases the cursor ends where it was.
  pub get_step_at-first :
      (time : F) (bm_id sumo_id : ℕ) (t : Trace F)
      → (r : Option ℕ) × FirstHit (stops time true t) (length t.points) r
        × StepAt time bm_id sumo_id t r (get_step_at R time bm_id sumo_id t)
  unfolding get_step_at
  get_step_at-first time bm_id sumo_id t =
      let (r, first, moved) = go_to_time-first time true t in (r, first, step r first moved)
    where
      step :
          (r : Option ℕ)
          → FirstHit (stops time true t) (length t.points) r
          → go_to_time R time true t ≡ gone true t r
          → StepAt time bm_id sumo_id t r (get_step_at R time bm_id sumo_id t)
      step none first e = ap (resume R t.head (step_here R time bm_id sumo_id)) e
      step (some k) first e =
          rw (ap (resume R t.head (step_here R time bm_id sumo_id)) e, get_step_at)
            (step_here-StepAt time bm_id sumo_id k t first.0)
