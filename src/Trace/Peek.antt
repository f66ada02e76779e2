-- ===== src/Trace/Peek.antt =====
-- `_peek` and the six methods on it never return.
use crownet.Prelude.{ℕ, ◌<◌, ◌≡◌, some, length, get_elem?-lt, text, err, unbound_local_error, arith}
use crownet.Trace.{
  Trace, peek, peek_next_edge, peek_previous_edge, has_next, has_previous, next_edge, previous_edge,
  get_edge,
}

module _ {F : Type 0} (t : Trace F) (x : ℕ) (at : t.head ≡ some x)
    (inside : x < length t.points) where
  peek-raises :
      (peek (text "next") t ≡ err unbound_local_error)
      × (peek (text "prev") t ≡ err unbound_local_error)
  unfolding peek get_edge
  peek-raises = let (p, there) = get_elem?-lt t.points x inside in (ground arith, ground arith)

  -- On a trace whose cursor stands on a point, `has_next`, `has_previous`, `peek_next_edge`,
  -- `peek_previous_edge`, `next_edge` and `previous_edge` all raise `UnboundLocalError`, and the
  -- last two leave the cursor alone.
  pub moves_raise :
      (has_next t ≡ err unbound_local_error)
      × (has_previous t ≡ err unbound_local_error)
      × (peek_next_edge t ≡ err unbound_local_error)
      × (peek_previous_edge t ≡ err unbound_local_error)
      × (next_edge t ≡ (err unbound_local_error, t))
      × (previous_edge t ≡ (err unbound_local_error, t))
  unfolding has_next has_previous peek_next_edge peek_previous_edge next_edge previous_edge
  moves_raise =
      let (n, p) = peek-raises in
      (ground arith, ground arith, ground arith, ground arith, ground arith, ground arith)
