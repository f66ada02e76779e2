-- ===== src/Enb/Links.antt =====
-- The links between the stations: one for each pair of stations that touch.
use crownet.Prelude.{
  ℕ, suc, ◌+◌, ◌-◌, ◌*◌, ◌/◌, ◌%◌, ◌<◌, ◌≡◌, ◌≢◌, refl, sym, ◌∙◌, Bool, true, false, not, some_inj,
  ◌&&◌, ◌||◌, some, List, [], ◌∷◌, ◌++◌, arith, length, contains, add, contains-add, nat_eq,
  pair_eq, ltb, leb, ◌==◌, contains-sort, sort, if◌then◌else◌,
}
use mathlib.Core.Path.{ap₂}
use mathlib.Core.Option
use mathlib.Core.Logic.{dite}
use native.Mathlib.Decide.{ℕ_discrete}
use crownet.Enb.Grid.{cell, cell-lt_size, cell-eq}
use crownet.Enb.Adjacent.{adjacent, neighbor_index-adjacent}
use crownet.Enb.{
  neighbors_at, neighbor_index, create_links, Line, station_lines, config_loop, head_lines,
  create_enb_config, link_lt,
}

contains-create_links :
    (links : List (ℕ × ℕ)) (enb : ℕ) (cs : List ℕ) (a b : ℕ)
    → contains (create_links links enb cs) (a, b) ≡ (
        contains links (a, b)
        || ((b == enb && (ltb a b && contains cs a)) || (a == enb && (leb a b && contains cs b))))
unfolding create_links
contains-create_links links enb [] a b = ground arith
contains-create_links links enb (i ∷ cs) a b =
    let link = if ltb i enb then (i, enb) else (enb, i) in
    contains-create_links (add links link) enb cs a b
    ∙ rw (contains-add links link (a, b)) (ground arith)

abbrev in_range : ℕ → ℕ → ℕ → Bool
in_range idx n c = leb idx c && ltb c (idx + n)

-- One turn of a counted loop joins the turns that follow.
in_range-step :
    (f : ℕ → Bool) (idx n c : ℕ)
    → ((c == idx && f idx) || (in_range (suc idx) n c && f c)) ≡ (in_range idx (suc n) c && f c)
in_range-step f idx n c =
    dite (ℕ_discrete c idx) (λ e. rw e (ground arith)) (λ ne. later f (f idx) idx n c ne)
  where
    later :
        (f : ℕ → Bool) (t : Bool) (idx n c : ℕ)
        → c ≢ idx
        → ((c == idx && t) || (in_range (suc idx) n c && f c)) ≡ (in_range idx (suc n) c && f c)
    later f t idx n c ne = ground arith

or_shuffle : (o a b c d : Bool) → ((o || (a || b)) || (c || d)) ≡ (o || ((a || c) || (b || d)))
or_shuffle true a b c d = refl
or_shuffle false true b c d = refl
or_shuffle false false true true d = refl
or_shuffle false false true false d = refl
or_shuffle false false false c d = refl

-- The list of a station, as `neighbor_index` computes it from the number.
abbrev neighbors : ℕ → ℕ → ℕ → List ℕ
neighbors w h n = neighbors_at n w h (n % w) ((n - n % w) / w)

neighbor_index-pos : (w h n : ℕ) → 0 < w → neighbor_index n (w, h) ≡ some (neighbors w h n)
unfolding neighbor_index
neighbor_index-pos w h n pos = ground arith

module _ (w h : ℕ) (a b : ℕ) where
  -- What the turns of the loop from a station on, for a number of stations, say of a link.
  abbrev earned : ℕ → ℕ → Bool
  earned idx n =
      (in_range idx n b && (ltb a b && contains (neighbors w h b) a))
      || (in_range idx n a && (leb a b && contains (neighbors w h a) b))

  earned-step :
      (idx n : ℕ) (old : Bool)
      → ((old
            || ((b == idx && (ltb a b && contains (neighbors w h idx) a))
                || (a == idx && (leb a b && contains (neighbors w h idx) b))))
          || earned (suc idx) n)
        ≡ (old || earned idx (suc n))
  earned-step idx n old =
      or_shuffle old (b == idx && (ltb a b && contains (neighbors w h idx) a))
        (a == idx && (leb a b && contains (neighbors w h idx) b))
        (in_range (suc idx) n b && (ltb a b && contains (neighbors w h b) a))
        (in_range (suc idx) n a && (leb a b && contains (neighbors w h a) b))
      ∙ ap₂ (λ p q. old || (p || q))
          (in_range-step (λ k. ltb a b && contains (neighbors w h k) a) idx n b)
          (in_range-step (λ k. leb a b && contains (neighbors w h k) b) idx n a)

  module _ {P : Type 0} where
    loop-links :
        0 < w
        → (rest : List P) (idx : ℕ) (links : List (ℕ × ℕ)) (out : List (Line P))
        → (lines : List (Line P)) × (found : List (ℕ × ℕ)) × (config_loop (w, h) idx rest links out
            ≡ some (lines, found))
          × (contains found (a, b) ≡ (contains links (a, b) || earned idx (length rest)))
    unfolding config_loop
    loop-links pos [] idx links out = (out, links, refl, ground arith)
    loop-links pos (enb ∷ rest) idx links out =
        let ns = neighbors w h idx in
        let (lines, found, ran, holds) =
          loop-links pos rest (suc idx) (create_links links idx ns)
            (out ++ station_lines idx enb ns) in
        (
          lines,
          found,
          rw (neighbor_index-pos w h idx pos, config_loop) ran,
          holds
              ∙ rw (contains-create_links links idx ns a b)
                  (earned-step idx (length rest) (contains links (a, b))),
        )

and_comm : (a b : Bool) → (a && b) ≡ (b && a)
and_comm true true = refl
and_comm true false = refl
and_comm false true = refl
and_comm false false = refl

eq_comm : (a b : ℕ) → (a == b) ≡ (b == a)
eq_comm a b = ground arith

adjacent_comm : (x y u v : ℕ) → adjacent u v x y ≡ adjacent x y u v
adjacent_comm x y u v = rw (
  eq_comm x u,
  eq_comm y v,
  and_comm (leb x (u + 1)) (leb u (x + 1)),
  and_comm (leb y (v + 1)) (leb v (y + 1)),
)

module _ (w h x y u v : ℕ) (x_in : x < w) (y_in : y < h) (u_in : u < w) (v_in : v < h) where
  -- A station does not touch itself.
  adjacent-ne : (adjacent x y u v && cell w x y == cell w u v) ≡ false
  adjacent-ne =
      rw (cell-eq w x y u v x_in u_in, eq_comm x u, eq_comm y v)
        (never (leb u (x + 1) && leb x (u + 1) && (leb v (y + 1) && leb y (v + 1)))
          (u == x && v == y))
    where
      never : (n s : Bool) → (n && not s && s) ≡ false
      never true true = refl
      never true false = refl
      never false s = refl

  neighbors-cell : contains (neighbors w h (cell w x y)) (cell w u v) ≡ adjacent x y u v
  neighbors-cell =
      let (ns, found, listed) = neighbor_index-adjacent w h x y u v x_in y_in u_in v_in in
      let same : ns ≡ neighbors w h (cell w x y) =
        some_inj ns _ (sym found ∙ neighbor_index-pos w h (cell w x y) (omega arith)) in
      rw same at listed

linked_once :
    (a b n : ℕ) (near : Bool)
    → a < n
    → b < n
    → (near && a == b) ≡ false
    → ((in_range 0 n b && (ltb a b && near)) || (in_range 0 n a && (leb a b && near)))
      ≡ (ltb a b && near)
linked_once a b n near a_in b_in other = ground arith

-- For a grid's stations `create_enb_config` returns, and two of them are linked, the lower number
-- first, exactly when they touch.
pub create_enb_config-links :
    {P : Type 0} (w h x y u v : ℕ) (positions : List P)
    → x < w
    → y < h
    → u < w
    → v < h
    → length positions ≡ w * h
    → (lines : List (Line P)) × (links : List (ℕ × ℕ)) × (create_enb_config positions (w, h)
        ≡ some (lines, links))
      × (contains links (cell w x y, cell w u v)
          ≡ (ltb (cell w x y) (cell w u v) && adjacent x y u v))
unfolding create_enb_config
create_enb_config-links w h x y u v positions x_in y_in u_in v_in size =
    let a = cell w x y in
    let b = cell w u v in
    let (lines, found, ran, holds) =
      loop-links w h a b (omega arith) positions 0 [] (head_lines (w, h) (length positions)) in
    (
      lines,
      sort link_lt found,
      rw (ran, Option.map),
      contains-sort link_lt found (a, b)
          ∙ (holds
              ∙ rw
                  (
                    neighbors-cell w h u v x y u_in v_in x_in y_in,
                    neighbors-cell w h x y u v x_in y_in u_in v_in,
                    adjacent_comm x y u v,
                  )
                  (linked_once a b (length positions) (adjacent x y u v)
                    (omega (arith, cell-lt_size w h x y x_in y_in))
                    (omega (arith, cell-lt_size w h u v u_in v_in))
                    (adjacent-ne w h x y u v x_in y_in u_in v_in))),
    )
