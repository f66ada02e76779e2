-- ===== src/Enb/Config.antt =====
-- The `x2App` lines of a station: as many as `numX2Apps` says, one for each neighbour, in order.
use mathlib.Core.Option
use crownet.Prelude.{
  ℕ, zero, suc, ◌+◌, ◌<◌, ◌≡◌, refl, ◌∙◌, false, some, List, [], ◌∷◌, arith, length, get_elem?,
  contains, nat_eq, ◌==◌,
}
use crownet.Enb.Grid.{cell}
use crownet.Enb.Adjacent.{adjacent, neighbor_index-adjacent}
use crownet.Enb.{neighbor_index, connect_address, app_lines}

contains-cons_false :
    (n : ℕ) (ns : List ℕ) (a : ℕ)
    → contains (n ∷ ns) a ≡ false
    → ((a == n) ≡ false) × (contains ns a ≡ false)
contains-cons_false n ns a h = (ground arith, ground arith)

module _ (P : Type 0) (idx : ℕ) where
  length-app_lines :
      (k : ℕ) (ns : List ℕ)
      → contains ns idx ≡ false
      → length (app_lines {P = P} idx k ns) ≡ length ns
  unfolding app_lines
  length-app_lines k [] h = refl
  length-app_lines k (n ∷ ns) h = ground (arith, length-app_lines (suc k) ns)

  get_elem?-app_lines :
      (k : ℕ) (ns : List ℕ) (i : ℕ)
      → contains ns idx ≡ false
      → get_elem? (app_lines {P = P} idx k ns) i
        ≡ Option.map (connect_address idx (k + i)) (get_elem? ns i)
  unfolding app_lines
  get_elem?-app_lines k [] i h = refl
  get_elem?-app_lines k (n ∷ ns) zero h =
      let e : k + 0 ≡ k = omega arith in rw ((contains-cons_false n ns idx h).0, e)
  get_elem?-app_lines k (n ∷ ns) (suc i) h =
      let (other, rest) = contains-cons_false n ns idx h in
      let e : k + suc i ≡ suc k + i = omega arith in
      rw (other, e) (get_elem?-app_lines (suc k) ns i rest)

-- For a station of the grid the number in its `numX2Apps` line is the number of its `x2App` lines,
-- and the i-th of these has the counter i and connects to the i-th station of its list.
pub app_lines-neighbors :
    (P : Type 0) (w h x y : ℕ)
    → x < w
    → y < h
    → (ns : List ℕ) × (neighbor_index (cell w x y) (w, h) ≡ some ns)
      × (length (app_lines {P = P} (cell w x y) 0 ns) ≡ length ns)
      × ((i : ℕ)
          → get_elem? (app_lines {P = P} (cell w x y) 0 ns) i
            ≡ Option.map (connect_address (cell w x y) i) (get_elem? ns i))
app_lines-neighbors P w h x y a b =
    let idx = cell w x y in
    let (ns, found, near) = neighbor_index-adjacent w h x y x y a b a b in
    let itself : adjacent x y x y ≡ false = ground arith in
    let apart : contains ns idx ≡ false = near ∙ itself in
    (
      ns,
      found,
      length-app_lines P idx 0 ns apart,
      λ i. let z : 0 + i ≡ i = omega arith in get_elem?-app_lines P idx 0 ns i apart ∙ rw z,
    )
