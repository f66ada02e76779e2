-- ===== src/Trace/Walk/Routes.antt =====
-- What `find_edge_match` returns, from the points around the cursor.
use crownet.Prelude.{
  ℕ, zero, suc, ◌+◌, ◌<◌, ◌≤◌, ◌≡◌, ◌∙◌, refl, ap, inl, inr, Bool, true, false, Option, none, some,
  List, [], ◌∷◌, ◌++◌, arith, length, get_elem?, get_elem?-lt, Bool-cases, contains, FirstHit,
  FirstHit-suc-some, Text, list_beq, list_eq, nat_eq, Result, ok, err, value_error,
}
use crownet.Floats.{Floats}
use crownet.Trace.{TracePoint, Trace, get_edge}
use crownet.Trace.Nearest.{hit, NextHit, PrevHit, find_nearest}
use crownet.Trace.Seek.{go_to_time, resume}
use crownet.Trace.Seek.Times.{stops, landing, gone, go_to_time-first}
use crownet.Trace.Walk.{Slice, index_of, last, prev_route, next_route, match_here, find_edge_match}

-- Whether the walk has an edge at a place.
abbrev pub edge_at : List Text → Text → ℕ → Bool
edge_at [] e i = false
edge_at (w ∷ ws) e zero = list_beq e w
edge_at (w ∷ ws) e (suc i) = edge_at ws e i

-- `edges.index(e)` is the first place of an edge that is on the walk.
index_of-FirstHit :
    (e : Text) (ws : List Text)
    → contains ws e ≡ true
    → (j : ℕ) × (index_of e ws ≡ some j) × FirstHit (edge_at ws e) (length ws) (some j)
unfolding index_of
index_of-FirstHit e [] h = cc
index_of-FirstHit e (w ∷ ws) h = elim (Bool-cases (list_beq e w)) [
  | inl here ↦ (0, rw here, (omega arith, here, λ i a. elim a [ ]))
  | inr there ↦
      let (j, found, first) = index_of-FirstHit e ws (ground arith) in
      (suc j, rw (there, found), FirstHit-suc-some (edge_at (w ∷ ws) e) (length ws) j there first)
]

module _ {F : Type 0} (edges : List Text) (t : Trace F) where
  -- The first place on the walk of the edge of a point.
  abbrev pub PlaceOf : ℕ → ℕ → Type 0
  PlaceOf i j =
      (p : TracePoint F) × (get_elem? t.points i ≡ some p)
      × FirstHit (edge_at edges p.edge) (length edges) (some j)

  -- The walk up to and with the edge of an earlier point; nothing, if there is none.
  abbrev pub Before : Option ℕ → List Slice → Type 0
  Before none rs = rs ≡ []
  Before (some i) rs = (j : ℕ) × PlaceOf i j × (rs ≡ record { start = 0; stop = j + 1 } ∷ [])

  -- The walk from the edge of a later point on.
  abbrev pub After : Option ℕ → List Slice → Type 0
  After none rs = rs ≡ []
  After (some i) rs = (j : ℕ) × PlaceOf i j × (rs ≡ record { start = j; stop = length edges } ∷ [])

  hit-point :
      (i : ℕ)
      → i < length t.points
      → hit edges t i ≡ true
      → (p : TracePoint F) × (get_elem? t.points i ≡ some p) × (contains edges p.edge ≡ true)
  hit-point i inside h = let (p, at) = get_elem?-lt t.points i inside in (p, at, rw at at h)

  prev_route-Before :
      (r : Option ℕ) (x : ℕ)
      → x < length t.points
      → PrevHit (hit edges t) x r
      → (rs : List Slice) × (prev_route edges r t ≡ ok rs) × Before r rs
  unfolding prev_route get_edge
  prev_route-Before none x inside h = ([], refl, refl)
  prev_route-Before (some i) x inside (below, found, _) =
      let (p, at, on) = hit-point i (omega arith) found in
      let (j, place, first) = index_of-FirstHit p.edge edges on in
      let (q, start) = get_elem?-lt t.points 0 (omega arith) in
      (_, rw (at, place, start), (j, (p, at, first), refl))

  next_route-After :
      (r : Option ℕ) (x : ℕ)
      → NextHit (hit edges t) x (length t.points) r
      → (rs : List Slice) × (next_route edges r t ≡ ok rs) × After r rs
  unfolding next_route get_edge
  next_route-After none x h = ([], refl, refl)
  next_route-After (some i) x (_, below, found, _) =
      let (p, at, on) = hit-point i below found in
      let (j, place, first) = index_of-FirstHit p.edge edges on in
      let (q, end) = get_elem?-lt t.points (last t) (omega arith) in
      (_, rw (at, place, end), (j, (p, at, first), refl))

  -- From a cursor on the trace the method's work ends without an exception.
  match_here-lem :
      (x : ℕ)
      → t.head ≡ some x
      → x < length t.points
      → (earlier later : Option ℕ) × (before after : List Slice) × PrevHit (hit edges t) x earlier
        × NextHit (hit edges t) x (length t.points) later
        × Before earlier before
        × After later after
        × (match_here edges t ≡ ok (before ++ after))
  unfolding match_here
  match_here-lem x at inside =
      let (later, earlier, f, n, b, p) = find_nearest edges t x at inside in
      let (rs, ran, route) = prev_route-Before earlier x inside p in
      let (qs, ran', route') = next_route-After later x n in
      (earlier, later, rs, qs, p, n, route, route', rw (b, f, ran, ran'))

module _ (R : Floats) where
  open R use {F}

  -- How `find_edge_match` ends, from the first point that stops `go_to_time`.
  abbrev pub Matched :
      List Text → Bool → Trace F → Option ℕ → Result (List Slice) × Trace F → Type 0
  Matched edges exact t none res = res ≡ (err value_error, t)
  Matched edges exact t (some k) res =
      (earlier later : Option ℕ) × (before after : List Slice) × PrevHit (hit edges t)
        (landing R exact k) earlier
      × NextHit (hit edges t) (landing R exact k) (length t.points) later
      × Before edges t earlier before
      × After edges t later after
      × (res ≡ (ok (before ++ after), t))

  landing-le : (exact : Bool) (k : ℕ) → landing R exact k ≤ k
  landing-le true k = omega arith
  landing-le false k = omega arith

  -- `find_edge_match` looks from the point that `go_to_time` finds. It returns the walk up to the
  -- edge of the nearest earlier point on the walk, and the walk from the edge of the nearest later
  -- one, each only if there is such a point; an edge stands for its first place on the walk. It
  -- raises `ValueError` if and only if no point has the time. The cursor ends where it was.
  pub find_edge_match-Matched :
      (edges : List Text) (time : F) (exact : Bool) (t : Trace F)
      → (r : Option ℕ) × FirstHit (stops R time exact t) (length t.points) r
        × Matched edges exact t r (find_edge_match R edges time exact t)
  unfolding find_edge_match
  find_edge_match-Matched edges time exact t =
      let (r, first, moved) = go_to_time-first R time exact t in (r, first, matched r first moved)
    where
      matched :
          (r : Option ℕ)
          → FirstHit (stops R time exact t) (length t.points) r
          → go_to_time R time exact t ≡ gone R exact t r
          → Matched edges exact t r (find_edge_match R edges time exact t)
      matched none first e = ap (resume R t.head (match_here edges)) e
      matched (some k) first e =
          let at : Trace F = record t { head = some (landing R exact k) } in
          let low : landing R exact k < length t.points =
            omega (arith, landing-le exact k, first.0) in
          let (earlier, later, before, after, p, n, b, a, ran) =
            match_here-lem edges at (landing R exact k) refl low in
          (
            earlier,
            later,
            before,
            after,
            p,
            n,
            b,
            a,
            ap (resume R t.head (match_here edges)) e ∙ rw ran,
          )
