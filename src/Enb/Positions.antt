-- ===== src/Enb/Positions.antt =====
-- `create_enb_position` numbers the stations as `neighbor_index` reads them.
use crownet.Prelude.{
  ℕ, zero, suc, ◌+◌, ◌*◌, ◌<◌, ◌≡◌, refl, ◌∙◌, some, arith, length, get_elem?, length-append,
  get_elem?-append_left, get_elem?-append_right, ap,
}
use crownet.Enb.Grid.{cell}
use crownet.Enb.{position_row, position_rows, create_enb_position}

module _ {ℓ} {P : Type ℓ} (position : ℕ → ℕ → P) where
  length-position_row : (x n y : ℕ) → length (position_row position x n y) ≡ n
  unfolding position_row
  length-position_row x zero y = refl
  length-position_row x (suc n) y = ap suc (length-position_row (suc x) n y)

  get_elem?-position_row :
      (x n y i : ℕ) → i < n → get_elem? (position_row position x n y) i ≡ some (position (x + i) y)
  unfolding position_row
  get_elem?-position_row x zero y i h = elim h [ ]
  get_elem?-position_row x (suc n) y zero h = let e : x + 0 ≡ x = omega arith in rw e
  get_elem?-position_row x (suc n) y (suc i) h =
      let e : x + suc i ≡ suc x + i = omega arith in
      rw e (get_elem?-position_row (suc x) n y i (omega arith))

  get_elem?-position_rows :
      (w y n i j : ℕ)
      → i < w
      → j < n
      → get_elem? (position_rows position w y n) (cell w i j) ≡ some (position i (y + j))
  unfolding position_rows
  get_elem?-position_rows w y zero i j a b = elim b [ ]
  get_elem?-position_rows w y (suc n) i zero a b =
      let e : cell w i 0 ≡ i = omega arith in
      let f : y + 0 ≡ y = omega arith in
      let z : 0 + i ≡ i = omega arith in
      rw (e, f)
        (get_elem?-append_left _ _ i (omega (arith, length-position_row 0 w y))
          ∙ (get_elem?-position_row 0 w y i a ∙ rw z))
  get_elem?-position_rows w y (suc n) i (suc j) a b =
      let e : cell w i (suc j) ≡ length (position_row position 0 w y) + cell w i j =
        omega (arith, length-position_row 0 w y) in
      let f : y + suc j ≡ suc y + j = omega arith in
      rw (e, f)
        (get_elem?-append_right (position_row position 0 w y) _ _
          ∙ get_elem?-position_rows w (suc y) n i j a (omega arith))

  -- The station in a column and a row has the number of its cell, the number by which
  -- `neighbor_index` knows it.
  pub create_enb_position-cell :
      (w h x y : ℕ)
      → x < w
      → y < h
      → get_elem? (create_enb_position position (w, h)) (cell w x y) ≡ some (position x y)
  unfolding create_enb_position
  create_enb_position-cell w h x y a b =
      let z : 0 + y ≡ y = omega arith in get_elem?-position_rows w 0 h x y a b ∙ rw z

  length-position_rows : (w y n : ℕ) → length (position_rows position w y n) ≡ w * n
  unfolding position_rows
  length-position_rows w y zero = omega arith
  length-position_rows w y (suc n) = omega (
    arith,
    length-append (position_row position 0 w y) (position_rows position w (suc y) n),
    length-position_row 0 w y,
    length-position_rows w (suc y) n,
  )

  -- There are as many stations as the grid has cells.
  pub length-create_enb_position : (w h : ℕ) → length (create_enb_position position (w, h)) ≡ w * h
  unfolding create_enb_position
  length-create_enb_position w h = length-position_rows w 0 h
