-- ===== src/Trace/Seek.antt =====
-- `go_to_time` and `get_step_at`: the cursor goes to a time, and a step is read there.
pub mod Times
use mathlib.Core.Option
use crownet.Prelude.{
  ℕ, zero, suc, ◌+◌, ◌-◌, Bool, true, false, ◌&&◌, Option, none, some, List, [], ◌∷◌, ◌++◌, ltb,
  leb, ◌==◌, if◌then◌else◌, length, get_elem?, contains, nat_eq, list_eq, list_beq, sort, Text,
  text, Result, ok, err, Exception, index_error, value_error, type_error, unbound_local_error,
  out_of_fuel, ◌>>=◌, ◌>>◌, or_raise, take, drop,
}
use crownet.Floats.{Floats}
use crownet.Trace.{TracePoint, Trace, point_at, dist, calc_speed}

-- What `get_step_at` returns: `BmSumoStep`.
pub record BmSumoStep (F : Type 0) : Type 0 where
  pub bm_id : ℕ
  pub sumo_id : ℕ
  pub time : F
  pub dist : F
  pub speed : F
  pub edge_1 : Text
  pub edge_2 : Text

module _ (R : Floats) where
  open R use {F, lt, eq}

  -- The loop of `go_to_time`, from the point with number `i`.
  unfoldable pub seek : F → Bool → ℕ → List (TracePoint F) → Option ℕ
  seek time exact i [] = none
  seek time exact i (p ∷ points) =
      if (if exact then eq p.time time else lt time p.time && leb 1 i)
      then some (if exact then i else i - 1)
      else seek time exact (suc i) points

  -- `go_to_time`. The cursor stays where it is when no point fits.
  unfoldable pub go_to_time : F → Bool → Trace F → Result (Unit {0}) × Trace F
  unfolding seek
  go_to_time time exact t = elim (seek time exact 0 t.points) [
    | none ↦ (err value_error, t)
    | some i ↦ (ok tt, record t { head = some i })
  ]

  -- `get_step_at` after the cursor has moved to the point: the step into it, from the point before
  -- or, at the start of the trace, from itself.
  pub step_here : F → ℕ → ℕ → Trace F → Result (BmSumoStep F)
  unfolding point_at calc_speed
  step_here time bm_id sumo_id t = do
    e_now ← point_at t.head t
    h ← or_raise t.head type_error
    e_prev ← if h == 0 then ok e_now else point_at (some (h - 1)) t
    ok (record {
      bm_id = bm_id;
      sumo_id = sumo_id;
      time = time;
      dist = dist R e_now e_prev;
      speed = calc_speed R e_now e_prev;
      edge_1 = e_prev.edge;
      edge_2 = e_now.edge;
    })

  -- What a method does that moves the cursor to a time, works there, and puts the cursor back. An
  -- exception of the work leaves the cursor where it was moved.
  abbrev pub restore {ℓ} : {A : Type ℓ} → Option ℕ → Result A → Trace F → Result A × Trace F
  restore h (ok a) t = (ok a, record t { head = h })
  restore h (err e) t = (err e, t)

  abbrev pub resume {ℓ} :
      {A : Type ℓ}
      → Option ℕ
      → (Trace F → Result A)
      → Result (Unit {0}) × Trace F
      → Result A × Trace F
  resume h work (err e, t) = (err e, t)
  resume h work (ok _, t) = restore h (work t) t

  abbrev pub at_time {ℓ} :
      {A : Type ℓ} → F → Bool → (Trace F → Result A) → Trace F → Result A × Trace F
  at_time time exact work t = resume t.head work (go_to_time time exact t)

  unfoldable pub get_step_at : F → ℕ → ℕ → Trace F → Result (BmSumoStep F) × Trace F
  unfolding step_here go_to_time
  get_step_at time bm_id sumo_id = at_time time true (step_here time bm_id sumo_id)
