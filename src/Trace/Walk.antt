-- ===== src/Trace/Walk.antt =====
-- `find_edge_match`: the parts of a walk before and after a time that the trace has gone along.
pub mod Routes
use mathlib.Core.Option
use crownet.Prelude.{
  ℕ, zero, suc, ◌+◌, ◌-◌, Bool, true, false, ◌&&◌, Option, none, some, List, [], ◌∷◌, ◌++◌, ltb,
  leb, ◌==◌, if◌then◌else◌, length, get_elem?, contains, nat_eq, list_eq, list_beq, sort, Text,
  text, Result, ok, err, Exception, index_error, value_error, type_error, unbound_local_error,
  out_of_fuel, ◌>>=◌, ◌>>◌, or_raise, take, drop,
}
use crownet.Floats.{Floats}
use crownet.Trace.{Trace, point_at, get_edge, find}
use crownet.Trace.Seek.{at_time, go_to_time}

-- `slice(start, stop)`, and `edges[slice]`.
pub record Slice : Type 0 where
  pub start : ℕ
  pub stop : ℕ

unfoldable pub apply_slice {ℓ} : {A : Type ℓ} → Slice → List A → List A
apply_slice s xs = drop s.start (take s.stop xs)

-- `edges.index(edge)`.
pub index_of : Text → List Text → Option ℕ
index_of e [] = none
index_of e (w ∷ ws) = if list_beq e w then some 0 else Option.map suc (index_of e ws)

abbrev pub last : {F : Type 0} → Trace F → ℕ
last t = length t.points - 1

module _ {F : Type 0} where
  -- `print_route`: what is left of it are the two reads.
  print_route : Option ℕ → Option ℕ → Trace F → Result (Unit {0})
  unfolding point_at
  print_route start end t = do point_at start t; point_at end t; ok tt

  -- `edges.index(self.get_edge(i))`.
  edge_index : List Text → Option ℕ → Trace F → Result ℕ
  unfolding get_edge index_of
  edge_index edges i t = do
    e ← get_edge i t
    name ← or_raise e value_error
    or_raise (index_of name edges) value_error

  -- The route up to the edge of a point that was found behind the cursor.
  pub prev_route : List Text → Option ℕ → Trace F → Result (List Slice)
  unfolding edge_index print_route
  prev_route edges none t = ok []
  prev_route edges (some i) t = do
    e_idx ← edge_index edges (some i) t
    print_route (some 0) (some i) t
    ok (record { start = 0; stop = e_idx + 1 } ∷ [])

  -- The route from the edge of a point that was found ahead of the cursor.
  pub next_route : List Text → Option ℕ → Trace F → Result (List Slice)
  unfolding edge_index print_route
  next_route edges none t = ok []
  next_route edges (some i) t = do
    e_idx ← edge_index edges (some i) t
    print_route (some i) (some (last t)) t
    ok (record { start = e_idx; stop = length edges } ∷ [])

  pub match_here : List Text → Trace F → Result (List Slice)
  unfolding find prev_route next_route
  match_here edges t = do
    prev_id ← find edges (text "prev") t
    next_id ← find edges (text "next") t
    before ← prev_route edges prev_id t
    after ← next_route edges next_id t
    ok (before ++ after)

unfoldable pub find_edge_match :
    (R : Floats) → List Text → R.F → Bool → Trace R.F → Result (List Slice) × Trace R.F
unfolding match_here go_to_time
find_edge_match R edges time exact = at_time R time exact (match_here edges)
