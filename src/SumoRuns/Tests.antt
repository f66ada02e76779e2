-- ===== src/SumoRuns/Tests.antt =====
-- The theorem on the containers of SUMO at a concrete host, with argument lists that are lists of words.
use crownet.Prelude.{
  ℕ, ◌-◌, ◌≡◌, refl, Option, none, some, List, [], ◌∷◌, ◌++◌, Text, text, decimal, length,
  IsSetList, list_eq, nat_eq, ok, true, map, take, contains, arith,
}
use crownet.SumoRuns.{ArgLists, Host, simulation_command, commands, run_simulations}
use crownet.SumoRuns.Order.{IsRising, with_number}
use crownet.SumoRuns.Names.{names_from}
use crownet.SumoRuns.Waits.{route_files, starts, ends, run_simulations-waits}

abbrev with_value : Option Text → List Text
with_value none = []
with_value (some v) = v ∷ []

abbrev word_lists : ArgLists
word_lists = record {
  ArgList = List Text;
  empty = [];
  add = λ k v args. args ++ (k ∷ with_value v);
  add_cmd = λ cmd args. cmd ∷ args;
  append = λ w args. args ++ (w ∷ []);
  to_list = λ args. args;
  from_flat_list = λ ws. ws;
}

-- The number of a file is that of its third character.
abbrev third_digit : Text → Option ℕ
third_digit (a ∷ b ∷ c ∷ s) = some (c - b'0')
third_digit s = none

abbrev two_routes : Host
two_routes = record {
  sim_root = λ s. s;
  route = λ s. s;
  fcd = λ s. s;
  bm = λ s. s;
  sumo_cfg = λ s. s;
  glob = λ p. text "007_b" ∷ text "002_a" ∷ [];
  basename = λ s. s;
  int = third_digit;
  replace = λ old new s. s;
  sumo_home = text "sumo";
  root = some (text "dir");
  run = λ name cmd. ok tt;
  wait = λ name. ok 0;
}

abbrev two_keys : List (ℕ × Text)
two_keys = (7, text "007_b") ∷ (2, text "002_a") ∷ []

abbrev two_commands : List (List Text)
two_commands =
    commands two_routes word_lists
      (simulation_command two_routes word_lists (text "net") (text "p")) 0
      (text "002_a" ∷ text "007_b" ∷ [])

abbrev digit_of : Text → ℕ
digit_of (a ∷ b ∷ c ∷ s) = c - b'0'
digit_of s = 0

two_numbers :
    (path : Text)
    → contains (route_files two_routes (text "p")) path ≡ true
    → third_digit (take 3 path) ≡ some (digit_of path)
two_numbers [] h = ground arith
two_numbers (a ∷ []) h = ground arith
two_numbers (a ∷ b ∷ []) h = ground arith
two_numbers (a ∷ b ∷ c ∷ s) h = refl

run_simulations-waits_example :
    (sorted : List (ℕ × Text)) × IsRising 0 sorted
    × ((n : ℕ) → with_number n sorted ≡ with_number n two_keys)
    × (let cmds =
          commands two_routes word_lists
            (simulation_command two_routes word_lists (text "net") (text "p"))
            0
            (map (λ key. key.1) sorted) in
        let names = names_from 0 (text "x") cmds in
        (run_simulations two_routes word_lists (text "x") (text "net") (text "p") ≡ (
          ok tt,
          record {
            suffix = text "x";
            containers = names;
            events = starts names cmds ++ ends names;
          },
        ))
        × IsSetList names
        × (length names ≡ 2))
run_simulations-waits_example =
    run_simulations-waits two_routes word_lists (text "dir") refl (λ name cmd. refl)
      (λ name. (0, refl)) (text "x") (text "net") (text "p") digit_of two_numbers

names_of_two : names_from 0 (text "x") two_commands ≡ text "sumo_000_x" ∷ text "sumo_001_x" ∷ []
unfolding decimal
names_of_two = refl
