-- ===== src/Enb/Tests.antt =====
-- A grid of three columns and two rows, and the theorems on it.
use crownet.Prelude.{
  ℕ, ◌≡◌, ◌&&◌, refl, some, none, List, [], ◌∷◌, contains, nat_eq, pair_eq, ltb, arith,
}
use crownet.Enb.{create_enb_position, neighbor_index, create_enb_config, Line}
use crownet.Enb.Grid.{cell}
use crownet.Enb.Adjacent.{adjacent, neighbor_index-adjacent}
use crownet.Enb.Links.{create_enb_config-links}

corner_neighbors : neighbor_index 0 (3, 2) ≡ some (1 ∷ 3 ∷ 4 ∷ [])
unfolding neighbor_index
corner_neighbors = refl

middle_neighbors : neighbor_index 4 (3, 2) ≡ some (3 ∷ 5 ∷ 1 ∷ 0 ∷ 2 ∷ [])
unfolding neighbor_index
middle_neighbors = refl

no_columns : neighbor_index 4 (0, 2) ≡ none
unfolding neighbor_index
no_columns = refl

abbrev stations : List (ℕ × ℕ)
stations = (0, 0) ∷ (1, 0) ∷ (2, 0) ∷ (0, 1) ∷ (1, 1) ∷ (2, 1) ∷ []

stations_by_row : create_enb_position (λ x y. (x, y)) (3, 2) ≡ stations
unfolding create_enb_position
stations_by_row = refl

neighbor_index-adjacent_example :
    (ns : List ℕ) × (neighbor_index (cell 3 0 0) (3, 2) ≡ some ns)
    × (contains ns (cell 3 1 1) ≡ adjacent 0 0 1 1)
neighbor_index-adjacent_example =
    neighbor_index-adjacent 3 2 0 0 1 1 (omega arith) (omega arith) (omega arith) (omega arith)

create_enb_config-links_example :
    (lines : List (Line (ℕ × ℕ))) × (links : List (ℕ × ℕ)) × (create_enb_config stations (3, 2)
      ≡ some (lines, links))
    × (contains links (cell 3 1 0, cell 3 0 1)
        ≡ (ltb (cell 3 1 0) (cell 3 0 1) && adjacent 1 0 0 1))
create_enb_config-links_example =
    create_enb_config-links 3 2 1 0 0 1 stations (omega arith) (omega arith) (omega arith)
      (omega arith) refl
