-- ===== src/Enb/Adjacent.antt =====
-- `neighbor_index` gives the stations that touch a station, on a side or a corner, and no others.
use crownet.Prelude.{
  ℕ, zero, suc, ◌+◌, ◌-◌, ◌*◌, ◌<◌, ◌≡◌, refl, ◌∙◌, Bool, true, false, not, ◌&&◌, ◌||◌, some, ◌++◌,
  ltb, leb, ◌==◌, arith, List, contains, when, nat_eq,
}
use crownet.Enb.Axis.{
  Offset, offset, test_before, test_same, test_after, test_near, directions, directions-near,
  regroup, regroup_left, regroup_right,
}
use crownet.Enb.Grid.{cell, cell_column, cell_row, cell-eq}
use crownet.Enb.{neighbors_at, neighbor_index}

-- Two cells touch: their columns and their rows differ by one at most, and they are two.
abbrev pub adjacent : ℕ → ℕ → ℕ → ℕ → Bool
adjacent x y u v =
    leb u (x + 1) && leb x (u + 1) && (leb v (y + 1) && leb y (v + 1)) && not (u == x && v == y)

contains-when :
    (g : Bool) (a : ℕ) (rest : List ℕ) (b : ℕ)
    → contains (when g a ++ rest) b ≡ ((g && b == a) || contains rest b)
contains-when true a rest b = refl
contains-when false a rest b = refl

contains-when_last : (g : Bool) (a b : ℕ) → contains (when g a) b ≡ (g && b == a)
contains-when_last true a b = ground arith
contains-when_last false a b = refl

row_above : (y w : ℕ) → leb 1 y ≡ true → (y - 1) * w + w ≡ y * w
row_above zero w g = cc
row_above (suc y) w g = let e : suc y - 1 ≡ y = omega arith in rw e (omega arith)

module _ (w u v : ℕ) (p : u < w) where
  -- A guarded neighbour is the cell that it stands for, if the guard keeps it in the grid.
  guarded :
      (g : Bool) (n s t : ℕ)
      → (g ≡ true → (n ≡ cell w s t) × (s < w))
      → (g && cell w u v == n) ≡ (g && (u == s && v == t))
  guarded true n s t h = let (e, b) = h refl in rw e (cell-eq w u v s t p b)
  guarded false n s t h = refl

  module _ (n s t : ℕ) where
    side :
        (g : Bool)
        → (g ≡ true → (n ≡ cell w s t) × (s < w))
        → (g && cell w u v == n) ≡ ((g && u == s) && v == t)
    side g h = guarded g n s t h ∙ regroup_left g (u == s) (v == t)

    rank :
        (g : Bool)
        → (g ≡ true → (n ≡ cell w s t) × (s < w))
        → (g && cell w u v == n) ≡ (u == s && (g && v == t))
    rank g h = guarded g n s t h ∙ regroup_right g (u == s) (v == t)

    corner :
        (f g : Bool)
        → ((f && g) ≡ true → (n ≡ cell w s t) × (s < w))
        → (f && g && cell w u v == n) ≡ ((f && u == s) && (g && v == t))
    corner f g h = guarded (f && g) n s t h ∙ regroup f g (u == s) (v == t)

step :
    (g : Bool) (n : ℕ) (rest : List ℕ) (c : ℕ) {t r : Bool}
    → (g && c == n) ≡ t
    → contains rest c ≡ r
    → contains (when g n ++ rest) c ≡ (t || r)
step g n rest c e f = rw (contains-when g n rest c) (rw (e, f))

module _ (w h x y u v : ℕ) (a : x < w) (p : u < w) where
  contains-neighbors_at :
      contains (neighbors_at (cell w x y) w h x y) (cell w u v)
      ≡ directions
          (leb 1 x && u == x - 1)
          (u == x)
          (ltb (x + 1) w && u == x + 1)
          (leb 1 y && v == y - 1)
          (v == y)
          (ltb (y + 1) h && v == y + 1)
  unfolding neighbors_at
  contains-neighbors_at =
      let n = cell w x y in
      let l = leb 1 x in
      let r = ltb (x + 1) w in
      let t = leb 1 y in
      let b = ltb (y + 1) h in
      let up = row_above y w in
      step l _ _ _ (side w u v p (n - 1) (x - 1) y l λ g. ground arith) (
        step r _ _ _ (side w u v p (n + 1) (x + 1) y r λ g. ground arith) (
          step t _ _ _ (rank w u v p (n - w) x (y - 1) t λ g. ground (arith, up g)) (
            step b _ _ _ (rank w u v p (n + w) x (y + 1) b λ g. ground arith) (
              step (l && b) _ _ _ (corner w u v p (n + w - 1) (x - 1) (y + 1) l b λ g. ground arith)
                (step (l && t) _ _ _
                  (corner w u v p (n - w - 1) (x - 1) (y - 1) l t λ g. ground (arith, up))
                  (step (r && b) _ _ _
                    (corner w u v p (n + w + 1) (x + 1) (y + 1) r b λ g. ground arith)
                    (contains-when_last (r && t) (n - w + 1) (cell w u v)
                      ∙ corner w u v p (n - w + 1) (x + 1) (y - 1) r t
                          λ g. ground (arith, up))))))))

-- `neighbor_index` of a station in the grid returns, and a station of the grid is in its list
-- exactly when it touches the first, on a side or a corner.
pub neighbor_index-adjacent :
    (w h x y u v : ℕ)
    → x < w
    → y < h
    → u < w
    → v < h
    → (ns : List ℕ) × (neighbor_index (cell w x y) (w, h) ≡ some ns)
      × (contains ns (cell w u v) ≡ adjacent x y u v)
unfolding neighbor_index
neighbor_index-adjacent w h x y u v a b p q = (
  neighbors_at (cell w x y) w h x y,
  found,
  contains-neighbors_at w h x y u v a p ∙ meaning (offset x u) (offset y v),
)
  where
    found : neighbor_index (cell w x y) (w, h) ≡ some (neighbors_at (cell w x y) w h x y)
    found = rw (cell_row w x y a, cell_column w x y a) (ground arith)

    meaning :
        Offset x u
        → Offset y v
        → directions
            (leb 1 x && u == x - 1)
            (u == x)
            (ltb (x + 1) w && u == x + 1)
            (leb 1 y && v == y - 1)
            (v == y)
            (ltb (y + 1) h && v == y + 1)
          ≡ adjacent x y u v
    meaning o r =
        rw
          (
            test_before o,
            test_same o,
            test_after w o p,
            test_before r,
            test_same r,
            test_after h r q,
            test_near o,
            test_near r,
          )
          (directions-near o r)
