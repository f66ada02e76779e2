-- ===== src/Trace.antt =====
-- The movement trace of one pedestrian in crownet/simulations/multi_enb/sumo/clean_sumo_traces.py:
-- `TracePoint`, `DirNext`, `DirPrev` and `Trace`, a list of points with a cursor. A method takes the
-- trace and returns its result, or the exception that it raises, with the trace that it leaves.
-- What the methods print is left out.
pub mod Nearest
pub mod Peek
pub mod Read
pub mod Extract
pub mod Report
pub mod Seek
pub mod Walk
pub mod Update
mod Tests
use mathlib.Core.Option
use crownet.Prelude.{
  ℕ, zero, suc, ◌+◌, ◌-◌, Bool, true, false, ◌&&◌, Option, none, some, List, [], ◌∷◌, ◌++◌, ltb,
  leb, ◌==◌, if◌then◌else◌, length, get_elem?, contains, nat_eq, list_eq, list_beq, sort, Text,
  text, Result, ok, err, Exception, index_error, value_error, type_error, unbound_local_error,
  out_of_fuel, ◌>>=◌, ◌>>◌, or_raise, take, drop,
}
use crownet.Floats.{Floats}

pub record TracePoint (F : Type 0) : Type 0 where
  pub angle : F
  pub edge : Text
  pub id : ℕ
  pub pos : F
  pub slope : F
  pub speed : F
  pub x : F
  pub y : F
  pub time : F

-- `_head` is an index, or `None` where a search has found nothing.
pub record Trace (F : Type 0) : Type 0 where
  pub points : List (TracePoint F)
  pub head : Option ℕ

-- `DirNext(len(trace))` and `DirPrev()`.
pub data Dir : Type 0 where
  next : ℕ → Dir
  prev : Dir

has_next_in_dir : Dir → ℕ → Bool
has_next_in_dir (next l) x = ltb (x + 1) l
has_next_in_dir prev x = leb 1 x

go_dir : Dir → ℕ → ℕ
go_dir (next l) x = x + 1
go_dir prev x = x - 1

module _ (R : Floats) where
  open R use {F, lt, eq, sub, div, abs, norm}

  -- `TracePoint.dist` and `calc_speed`.
  pub dist : TracePoint F → TracePoint F → F
  dist p q = norm (sub p.x q.x) (sub p.y q.y)

  pub calc_speed : TracePoint F → TracePoint F → F
  unfolding dist
  calc_speed p q = abs (div (dist p q) (sub p.time q.time))

  -- `Trace(points)`, with the sort of `__post_init__`.
  pub new_trace : List (TracePoint F) → Trace F
  new_trace points = record { points = sort (λ p q. lt p.time q.time) points; head = some 0 }

abbrev is_some : Option ℕ → Bool
is_some none = false
is_some (some i) = true

-- `e in edges` for the result of `get_edge`.
abbrev on_edges : List Text → Option Text → Bool
on_edges edges none = false
on_edges edges (some e) = contains edges e

module _ {F : Type 0} where
  get_dir : Text → Trace F → Result Dir
  get_dir dir t =
      if list_beq dir (text "next")
      then ok (next (length t.points))
      else if list_beq dir (text "prev")
      then ok prev
      else err value_error

  -- `get_edge(point_id)`. Of a number that is no index, Python's list raises `IndexError`.
  pub get_edge : Option ℕ → Trace F → Result (Option Text)
  get_edge none t = ok none
  get_edge (some i) t = do point ← or_raise (get_elem? t.points i) index_error; ok (some point.edge)

  get_current_edge : Trace F → Result (Option Text)
  unfolding get_edge
  get_current_edge t = get_edge t.head t

  -- `self.trace[i]` for an index that may be `None`.
  pub point_at : Option ℕ → Trace F → Result (TracePoint F)
  point_at none t = err type_error
  point_at (some i) t = or_raise (get_elem? t.points i) index_error

  -- `_peek`: its loop reads the local variable `_next` before anything is assigned to it.
  pub peek : Text → Trace F → Result (Option ℕ)
  unfolding get_dir get_current_edge
  peek dir t = do get_dir dir t; get_current_edge t; err unbound_local_error

  pub peek_next_edge : Trace F → Result (Option Text)
  unfolding peek get_edge
  peek_next_edge t = do h ← peek (text "next") t; get_edge h t

  pub peek_previous_edge : Trace F → Result (Option Text)
  unfolding peek get_edge
  peek_previous_edge t = do h ← peek (text "prev") t; get_edge h t

  pub has_next : Trace F → Result Bool
  unfolding peek
  has_next t = do h ← peek (text "next") t; ok (is_some h)

  pub has_previous : Trace F → Result Bool
  unfolding peek
  has_previous t = do h ← peek (text "prev") t; ok (is_some h)

  -- `next_edge` and `previous_edge`: the cursor moves where `_peek` says, then `None` is refused.
  move_to : Option ℕ → Trace F → Result (Option Text) × Trace F
  unfolding get_current_edge
  move_to h t =
      let t' : Trace F = record t { head = h } in
      (if is_some h then get_current_edge t' else err value_error, t')

  abbrev peeked : Result (Option ℕ) → Trace F → Result (Option Text) × Trace F
  peeked (ok h) t = move_to h t
  peeked (err e) t = (err e, t)

  pub next_edge : Trace F → Result (Option Text) × Trace F
  unfolding peek move_to
  next_edge t = peeked (peek (text "next") t) t

  pub previous_edge : Trace F → Result (Option Text) × Trace F
  unfolding peek move_to
  previous_edge t = peeked (peek (text "prev") t) t

  -- The loop of `_find`, with fuel: step by step in the direction, until a point on one of the edges.
  find_loop : Dir → List Text → Trace F → ℕ → ℕ → Result (Option ℕ)
  find_loop d edges t zero x = err out_of_fuel
  find_loop d edges t (suc fuel) x = elim (has_next_in_dir d x) [
    | false ↦ ok none
    | true ↦ get_edge (some (go_dir d x)) t >>= λ e. elim (on_edges edges e) [
      | true ↦ ok (some (go_dir d x))
      | false ↦ find_loop d edges t fuel (go_dir d x)
    ]
  ]

  -- `_find(edges, dir)`: the loop starts at the cursor.
  pub find : List Text → Text → Trace F → Result (Option ℕ)
  unfolding find_loop has_next_in_dir go_dir get_dir get_edge
  find edges dir t = do
    d ← get_dir dir t
    x ← or_raise t.head type_error
    find_loop d edges t (suc (length t.points + x)) x
