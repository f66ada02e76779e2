-- ===== src/Guiding/Tests.antt =====
-- The script with tables that are lists of return codes.
use crownet.Prelude.{
  ℕ, ◌-◌, ◌≡◌, ◌↔◌, refl, true, some, none, List, [], ◌∷◌, if◌then◌else◌, Text, text, list_eq,
  list_beq, nat_eq, ok, err, key_error, Exception,
}
use crownet.Guiding.{
  Host, World, succeeded, network_id, arguments, run_controller, run_simulation_study, check_failed,
  sample, script,
}
use crownet.Guiding.Networks.{run_controller-networks}
use crownet.Guiding.Exits.{IsClean, script-AllZero}

-- One controller fails.
abbrev host : Text → Host
host failing = record {
  F = ℕ;
  zero_f = 0;
  one = 1;
  sub = λ a b. a - b;
  round = λ a. a;
  linspace = λ n. 0 ∷ 1 ∷ [];
  new_seed_variation = λ samples. samples;
  crownet_home = some (text "home");
  suffix = λ controller. text "ABC123";
  removable = λ id. true;
  Table = List ℕ;
  simulate = λ home controller qoi samples n.
      ok (if list_beq controller failing then 0 ∷ 1 ∷ [] else 0 ∷ 0 ∷ [], []);
  with_csv = λ name. name;
  return_codes = λ table. table;
  post_processing = λ dir. ok tt;
  int = λ s. none;
  script_dir = text "scripts";
}

abbrev empty_world : World (List ℕ)
empty_world = record { networks = text "bridge" ∷ []; files = [] }

script-closed_loop : (script (host (text "ClosedLoop")) [] empty_world).0 ≡ err key_error
unfolding script arguments run_simulation_study run_controller check_failed sample
script-closed_loop = refl

script-AllZero_example :
    ((script (host (text "none")) [] empty_world).0 ≡ ok succeeded)
    ↔ ((succeeded ≡ succeeded) × IsClean (host (text "none")) [] empty_world)
script-AllZero_example = script-AllZero (host (text "none")) [] empty_world succeeded

script-IsClean : IsClean (host (text "none")) [] empty_world
unfolding script arguments run_simulation_study run_controller check_failed sample
script-IsClean = ((script-AllZero (host (text "none")) [] empty_world succeeded).0 refl).1

run_controller-networks_example :
    ((found : List ℕ × List (Text × List ℕ))
      → (host []).simulate (text "home") (text "OpenLoop") [] [] 1 ≡ ok found
      → (files : List (Text × List ℕ)) × (run_controller
            (host [])
            (text "OpenLoop")
            []
            []
            (text "out")
            1
            empty_world
          ≡ (ok tt, record { networks = text "bridge" ∷ []; files = files })))
    × ((raised : Exception)
        → (host []).simulate (text "home") (text "OpenLoop") [] [] 1 ≡ err raised
        → run_controller (host []) (text "OpenLoop") [] [] (text "out") 1 empty_world ≡ (
          err raised,
          record {
            networks = text "bridge" ∷ network_id (host []) (text "OpenLoop") ∷ [];
            files = [];
          },
        ))
run_controller-networks_example =
    run_controller-networks (host []) (text "OpenLoop") (text "home") [] [] (text "out") 1
      empty_world refl refl refl
