-- ===== src/Trace/Nearest.antt =====
-- `_find` gives the nearest point on the edges, in the direction asked for.
use mathlib.Core.Option
use crownet.Prelude.{
  ℕ, zero, suc, ◌+◌, ◌-◌, ◌<◌, ◌≡◌, ◌∙◌, refl, inl, inr, Bool, true, false, Option, none, some,
  List, arith, length, get_elem?, get_elem?-lt, Bool-cases, Text, text, ok, if◌then◌else◌, dec_lt,
}
use crownet.Trace.{
  Trace, Dir, next, prev, has_next_in_dir, go_dir, get_edge, on_edges, find_loop, find,
}

-- Whether the point with a number lies on one of the edges.
abbrev pub hit : {F : Type 0} → List Text → Trace F → ℕ → Bool
hit edges t i = on_edges edges (Option.map (λ p. p.edge) (get_elem? t.points i))

-- The first number above `x` that passes a test, if there is one below `l`.
abbrev pub NextHit : (ℕ → Bool) → ℕ → ℕ → Option ℕ → Type 0
NextHit test x l none = (i : ℕ) → x < i → i < l → test i ≡ false
NextHit test x l (some k) =
    (x < k) × (k < l) × (test k ≡ true) × ((i : ℕ) → x < i → i < k → test i ≡ false)

-- The last number below `x` that passes a test, if there is one.
abbrev pub PrevHit : (ℕ → Bool) → ℕ → Option ℕ → Type 0
PrevHit test x none = (i : ℕ) → i < x → test i ≡ false
PrevHit test x (some k) = (k < x) × (test k ≡ true) × ((i : ℕ) → k < i → i < x → test i ≡ false)

module _ {F : Type 0} (edges : List Text) (t : Trace F) where
  get_edge-hit :
      (i : ℕ)
      → i < length t.points
      → (e : Option Text) × (get_edge (some i) t ≡ ok e) × (on_edges edges e ≡ hit edges t i)
  unfolding get_edge
  get_edge-hit i h = let (p, at) = get_elem?-lt t.points i h in (some p.edge, rw at, rw at)

  -- One round of the loop.
  module _ (d : Dir) (fuel x : ℕ) where
    round_stop : has_next_in_dir d x ≡ false → find_loop d edges t (suc fuel) x ≡ ok none
    unfolding find_loop
    round_stop done = rw (done, find_loop)

    module _ (y : ℕ) (more : has_next_in_dir d x ≡ true) (step : go_dir d x ≡ y) where
      round_at :
          (e : Option Text)
          → get_edge (some y) t ≡ ok e
          → find_loop d edges t (suc fuel) x
            ≡ (if on_edges edges e then ok (some y) else find_loop d edges t fuel y)
      unfolding find_loop
      round_at e read = ground arith

      round_found :
          y < length t.points
          → hit edges t y ≡ true
          → find_loop d edges t (suc fuel) x ≡ ok (some y)
      round_found inside found =
          let (e, read, same) = get_edge-hit y inside in round_at e read ∙ rw (same ∙ found)

      round_missed :
          y < length t.points
          → hit edges t y ≡ false
          → find_loop d edges t (suc fuel) x ≡ find_loop d edges t fuel y
      round_missed inside miss =
          let (e, read, same) = get_edge-hit y inside in round_at e read ∙ rw (same ∙ miss)

  skip_up :
      (x i : ℕ)
      → hit edges t (x + 1) ≡ false
      → (x + 1 < i → hit edges t i ≡ false)
      → x < i
      → hit edges t i ≡ false
  skip_up x i miss above h = elim (dec_lt (x + 1) i) [
    | yes p ↦ above p
    | no p ↦ let e : i ≡ x + 1 = omega arith in rw e miss
  ]

  NextHit-skip :
      (x l : ℕ) (r : Option ℕ)
      → hit edges t (x + 1) ≡ false
      → NextHit (hit edges t) (x + 1) l r
      → NextHit (hit edges t) x l r
  NextHit-skip x l none miss h = λ i a b. skip_up x i miss (λ c. h i c b) a
  NextHit-skip x l (some k) miss (above, below, found, h) =
      (omega arith, below, found, λ i a b. skip_up x i miss (λ c. h i c b) a)

  skip_down :
      (x i : ℕ)
      → hit edges t x ≡ false
      → (i < x → hit edges t i ≡ false)
      → i < suc x
      → hit edges t i ≡ false
  skip_down x i miss below h = elim (dec_lt i x) [
    | yes p ↦ below p
    | no p ↦ let e : i ≡ x = omega arith in rw e miss
  ]

  PrevHit-skip :
      (x : ℕ) (r : Option ℕ)
      → hit edges t x ≡ false
      → PrevHit (hit edges t) x r
      → PrevHit (hit edges t) (suc x) r
  PrevHit-skip x none miss h = λ i a. skip_down x i miss (h i) a
  PrevHit-skip x (some k) miss (below, found, h) =
      (omega arith, found, λ i a b. skip_down x i miss (h i a) b)

  find_loop-next :
      (fuel x : ℕ)
      → x < length t.points
      → length t.points < x + fuel
      → (r : Option ℕ) × (find_loop (next (length t.points)) edges t fuel x ≡ ok r)
        × NextHit (hit edges t) x (length t.points) r
  unfolding has_next_in_dir go_dir
  find_loop-next zero x inside enough = absurd (omega arith)
  find_loop-next (suc fuel) x inside enough =
      let l = length t.points in
      elim (dec_lt (x + 1) l) [
        | yes more ↦ elim (Bool-cases (hit edges t (x + 1))) [
          | inl found ↦ (
            some (x + 1),
            round_found (next l) fuel x (x + 1) (ground arith) refl more found,
            (omega arith, more, found, λ i a b. absurd (omega arith)),
          )
          | inr miss ↦
              let (r, ran, good) = find_loop-next fuel (x + 1) more (omega arith) in
              (
                r,
                round_missed (next l) fuel x (x + 1) (ground arith) refl more miss ∙ ran,
                NextHit-skip x l r miss good,
              )
        ]
        | no done ↦ (none, round_stop (next l) fuel x (ground arith), λ i a b. absurd (omega arith))
      ]

  find_loop-prev :
      (fuel x : ℕ)
      → x < length t.points
      → x < fuel
      → (r : Option ℕ) × (find_loop prev edges t fuel x ≡ ok r) × PrevHit (hit edges t) x r
  unfolding has_next_in_dir go_dir
  find_loop-prev zero x inside enough = absurd (omega arith)
  find_loop-prev (suc fuel) zero inside enough =
      (none, round_stop prev fuel zero (ground arith), λ i a. absurd (omega arith))
  find_loop-prev (suc fuel) (suc x) inside enough =
      let back : suc x - 1 ≡ x = omega arith in
      elim (Bool-cases (hit edges t x)) [
        | inl found ↦ (
          some x,
          round_found prev fuel (suc x) x (ground arith) back (omega arith) found,
          (omega arith, found, λ i a b. absurd (omega arith)),
        )
        | inr miss ↦
            let (r, ran, good) = find_loop-prev fuel x (omega arith) (omega arith) in
            (
              r,
              round_missed prev fuel (suc x) x (ground arith) back (omega arith) miss ∙ ran,
              PrevHit-skip x r miss good,
            )
      ]

  find-head :
      (x : ℕ)
      → t.head ≡ some x
      → (find edges (text "next") t
          ≡ find_loop (next (length t.points)) edges t (suc (length t.points + x)) x)
        × (find edges (text "prev") t ≡ find_loop prev edges t (suc (length t.points + x)) x)
  unfolding find
  find-head x at = (ground arith, ground arith)

  -- From a cursor on the trace `_find` ends and raises nothing. Ahead it gives the first point after
  -- the cursor that lies on one of the edges, or `None` if no later point does; backwards the
  -- last such point before the cursor.
  pub find_nearest :
      (x : ℕ)
      → t.head ≡ some x
      → x < length t.points
      → (later earlier : Option ℕ) × (find edges (text "next") t ≡ ok later)
        × NextHit (hit edges t) x (length t.points) later
        × (find edges (text "prev") t ≡ ok earlier)
        × PrevHit (hit edges t) x earlier
  unfolding find
  find_nearest x at inside =
      let l = length t.points in
      let (r, ran, good) = find_loop-next (suc (l + x)) x inside (omega arith) in
      let (q, ran', good') = find_loop-prev (suc (l + x)) x inside (omega arith) in
      let (ahead, behind) = find-head x at in (r, q, ahead ∙ ran, good, behind ∙ ran', good')
