-- ===== src/Enb.antt =====
-- The grid of base stations of crownet/simulations/multi_enb/generate_enb_grid.py: the positions,
-- the neighbours of each station, the links between them and the lines of the configuration.
-- Positions are values of an unknown type, since the source computes them with floats.
pub mod Grid
pub mod Axis
pub mod Adjacent
pub mod Positions
pub mod Links
pub mod Config
mod Tests
use mathlib.Core.Option
use crownet.Prelude.{
  ℕ, zero, suc, ◌+◌, ◌-◌, ◌*◌, ◌/◌, ◌%◌, Bool, ◌&&◌, Option, none, some, List, [], ◌∷◌, ◌++◌, map,
  ltb, leb, ◌==◌, if◌then◌else◌, when, range, range_from, length, contains, add, Eq, nat_eq, ◌≡◌,
  ◌↔◌, arith, true, sort, pair_eq, ◌||◌,
}

-- The loop of `create_enb_position`: row by row, and each row from left to right.
module _ {ℓ} {P : Type ℓ} (position : ℕ → ℕ → P) where
  position_row : ℕ → ℕ → ℕ → List P
  position_row x zero y = []
  position_row x (suc n) y = position x y ∷ position_row (suc x) n y

  position_rows : ℕ → ℕ → ℕ → List P
  position_rows width y zero = []
  position_rows width y (suc n) = position_row 0 width y ++ position_rows width (suc y) n

  pub create_enb_position : ℕ × ℕ → List P
  unfolding position_row position_rows
  create_enb_position (width, height) = position_rows width 0 height

-- The tests and the appends of `neighbor_index`, from `X`, `Y`, `_x` and `_y`. A test
-- `_x - 1 >= 0` on Python's signed numbers is `1 <= _x`.
pub neighbors_at : ℕ → ℕ → ℕ → ℕ → ℕ → List ℕ
neighbors_at n w h x y =
    when (leb 1 x) (n - 1)
    ++ (when (ltb (x + 1) w) (n + 1)
        ++ (when (leb 1 y) (n - w)
            ++ (when (ltb (y + 1) h) (n + w)
                ++ (when (leb 1 x && ltb (y + 1) h) (n + w - 1)
                    ++ (when (leb 1 x && leb 1 y) (n - w - 1)
                        ++ (when (ltb (x + 1) w && ltb (y + 1) h) (n + w + 1)
                            ++ when (ltb (x + 1) w && leb 1 y) (n - w + 1)))))))

-- `neighbor_index(N, enb_shape)`. A grid with no column raises `ZeroDivisionError`.
pub neighbor_index : ℕ → ℕ × ℕ → Option (List ℕ)
unfolding neighbors_at
neighbor_index n (w, h) =
    if w == 0 then none else some (neighbors_at n w h (n % w) ((n - n % w) / w))

-- `create_links`: every pair is put in with the smaller number first; a pair that is there stays.
pub create_links : List (ℕ × ℕ) → ℕ → List ℕ → List (ℕ × ℕ)
create_links links enb [] = links
create_links links enb (i ∷ connected_to) =
    create_links (add links (if ltb i enb then (i, enb) else (enb, i))) enb connected_to

-- What `create_enb_config` writes, a value for each line with what the f-string puts in.
pub data Line {ℓ} (P : Type ℓ) : Type ℓ where
  header : ℕ × ℕ → Line P
  extends_default blank local_port : Line P
  num_enb : ℕ → Line P
  station : ℕ → Line P
  num_x2_apps : ℕ → ℕ → Line P
  longitude latitude : ℕ → P → Line P
  connect_address : ℕ → ℕ → ℕ → Line P

-- `links.sort()` on pairs.
link_lt : ℕ × ℕ → ℕ × ℕ → Bool
link_lt (a, b) (c, d) = ltb a c || (a == c && ltb b d)

module _ {ℓ} {P : Type ℓ} where
  -- The loop over the neighbours, with its own counter `_idx` of the lines.
  pub app_lines : ℕ → ℕ → List ℕ → List (Line P)
  app_lines idx k [] = []
  app_lines idx k (enb ∷ neighbors) =
      if idx == enb
      then app_lines idx k neighbors
      else connect_address idx k enb ∷ app_lines idx (suc k) neighbors

  station_lines : ℕ → P → List ℕ → List (Line P)
  unfolding app_lines
  station_lines idx enb neighbors =
      station idx
      ∷ num_x2_apps idx (length neighbors)
      ∷ longitude idx enb
      ∷ latitude idx enb
      ∷ (app_lines idx 0 neighbors ++ (blank ∷ []))

  -- The loop over the stations: the lines, and the links found so far. `none` is the
  -- `ZeroDivisionError` of `neighbor_index`.
  config_loop :
      ℕ × ℕ → ℕ → List P → List (ℕ × ℕ) → List (Line P) → Option (List (Line P) × List (ℕ × ℕ))
  config_loop shape idx [] links out = some (out, links)
  config_loop shape idx (enb ∷ rest) links out = elim (neighbor_index idx shape) [
    | none ↦ none
    | some neighbors ↦
        config_loop shape (suc idx) rest (create_links links idx neighbors)
          (out ++ station_lines idx enb neighbors)
  ]

  abbrev head_lines : ℕ × ℕ → ℕ → List (Line P)
  head_lines shape n = header shape ∷ extends_default ∷ blank ∷ num_enb n ∷ local_port ∷ []

  -- The lines of the file, and the links that are printed.
  pub create_enb_config : List P → ℕ × ℕ → Option (List (Line P) × List (ℕ × ℕ))
  unfolding config_loop station_lines create_links neighbor_index link_lt
  create_enb_config positions shape =
      Option.map (λ (lines, links). (lines, sort link_lt links))
        (config_loop shape 0 positions [] (head_lines shape (length positions)))
