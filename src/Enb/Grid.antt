-- ===== src/Enb/Grid.antt =====
-- Cells of a grid and their numbers, row by row.
use native.Mathlib.Nat.{mul-div_left, mul-le-mul_right}
use crownet.Prelude.{ℕ, suc, ◌+◌, ◌*◌, ◌-◌, ◌/◌, ◌%◌, ◌<◌, ◌≤◌, ◌≡◌, ◌&&◌, ◌==◌, arith}

-- The number of the cell in a column and a row.
abbrev pub cell : ℕ → ℕ → ℕ → ℕ
cell w x y = y * w + x

pub cell_column : (w x y : ℕ) → x < w → cell w x y % w ≡ x
cell_column w x y h = grind arith

pub cell_row : (w x y : ℕ) → x < w → (cell w x y - cell w x y % w) / w ≡ y
cell_row w x y h = rw (cell_column w x y h) (rw (row_start y w x) (mul-div_left y (omega arith)))
  where
    row_start : (y w x : ℕ) → cell w x y - x ≡ y * w
    row_start y w x = omega arith

-- A row below holds smaller numbers only.
cell-lt : (w x y u v : ℕ) → x < w → y < v → cell w x y < cell w u v
cell-lt w x y u v h k =
    let below : (suc y) * w ≤ v * w = mul-le-mul_right w k in omega (arith, below)

pub cell-eq : (w x y u v : ℕ) → x < w → u < w → (cell w x y == cell w u v) ≡ (x == u && y == v)
cell-eq w x y u v h k = grind (arith, cell-lt w x y u v h, cell-lt w u v x y k)

-- The numbers of the cells of a grid are the numbers below its size.
pub cell-lt_size : (w h x y : ℕ) → x < w → y < h → cell w x y < w * h
cell-lt_size w h x y p q =
    let below : (suc y) * w ≤ h * w = mul-le-mul_right w q in omega (arith, below)
