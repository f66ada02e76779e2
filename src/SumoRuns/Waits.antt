-- ===== src/SumoRuns/Waits.antt =====
-- run_sumo_simulations.py: every container that is started is waited for and cleaned up.
use mathlib.Core.List.{append_assoc, append-nil}
use crownet.Prelude.{
  ℕ, suc, ◌+◌, ◌≡◌, ◌∙◌, refl, ap, none, some, List, [], ◌∷◌, ◌++◌, Text, text, length,
  length-append, IsSetList, list_eq, nat_eq, ok, err, name_error, true, map, take, sort, contains,
  length-sort, length-map, beq_self, arith,
}
use crownet.SumoRuns.{
  ArgLists, Host, Event, started, waited, cleaned, ContainerList, container_name, create_and_run,
  wait_for, wait, run_all, run_and_wait, numbered, by_number, simulation_command, commands,
  run_simulations, run_sorted,
}
use crownet.SumoRuns.Order.{
  before, number_each, length-number_each, IsRising, with_number, sort-IsRising, with_number-sort,
}
use crownet.SumoRuns.Names.{names_from, names_from-IsSetList}

-- The route files that `run_simulations` finds.
abbrev pub route_files : Host → Text → List Text
route_files H prefix = H.glob (H.route (text "*" ++ (prefix ++ text "_ped_route.xml")))

abbrev pub starts : List Text → List (List Text) → List Event
starts [] cmds = []
starts (name ∷ names) [] = []
starts (name ∷ names) (cmd ∷ cmds) = started name cmd ∷ starts names cmds

-- Each container is cleaned up right after it has been waited for.
abbrev pub ends : List Text → List Event
ends [] = []
ends (name ∷ names) = waited name ∷ cleaned name ∷ ends names

module _ (H : Host) (dir : Text) (there : H.root ≡ some dir)
    (runs : (name : Text) (cmd : List Text) → H.run name cmd ≡ ok tt) where
  create_and_run_lem :
      (cmd : List Text) (c : ContainerList)
      → let name = container_name (length c.containers) c.suffix in
        create_and_run H cmd c ≡ (
          ok tt,
          record {
            suffix = c.suffix;
            containers = c.containers ++ (name ∷ []);
            events = c.events ++ (started name cmd ∷ []);
          },
        )
  unfolding create_and_run
  create_and_run_lem cmd c =
      rw (there, runs (container_name (length c.containers) c.suffix) cmd) refl

  run_all_lem :
      (cmds : List (List Text)) (c : ContainerList)
      → let names = names_from (length c.containers) c.suffix cmds in
        run_all H cmds c ≡ (
          ok tt,
          record {
            suffix = c.suffix;
            containers = c.containers ++ names;
            events = c.events ++ starts names cmds;
          },
        )
  run_all_lem [] c = rw (append-nil, append-nil) refl
  run_all_lem (cmd ∷ cmds) c =
      rw (create_and_run_lem cmd c)
        (run_all_lem cmds next ∙ rw (grows, append_assoc, append_assoc) refl)
    where
      name : Text
      name = container_name (length c.containers) c.suffix

      next : ContainerList
      next = record {
        suffix = c.suffix;
        containers = c.containers ++ (name ∷ []);
        events = c.events ++ (started name cmd ∷ []);
      }

      grows : length (c.containers ++ (name ∷ [])) ≡ length c.containers + 1
      grows = length-append c.containers (name ∷ [])

module _ (H : Host) (waits : (name : Text) → (ret : ℕ) × (H.wait name ≡ ok ret)) where
  wait_for_lem :
      (names : List Text) (c : ContainerList)
      → wait_for H names c ≡ (ok tt, record c { events = c.events ++ ends names })
  unfolding wait_for
  wait_for_lem [] c = rw append-nil refl
  wait_for_lem (name ∷ names) c = rw (waits name).1 (
      wait_for_lem names
        (record c { events = (c.events ++ (waited name ∷ [])) ++ (cleaned name ∷ []) })
      ∙ rw (append_assoc, append_assoc) refl)

module _ (H : Host) (L : ArgLists) (dir : Text) (there : H.root ≡ some dir)
    (runs : (name : Text) (cmd : List Text) → H.run name cmd ≡ ok tt)
    (waits : (name : Text) → (ret : ℕ) × (H.wait name ≡ ok ret)) where
  numbered_lem :
      (number : Text → ℕ) (paths : List Text)
      → ((path : Text)
          → contains paths path ≡ true
          → H.int (take 3 (H.basename path)) ≡ some (number path))
      → numbered H paths ≡ ok (number_each number paths)
  numbered_lem number [] reads = refl
  numbered_lem number (path ∷ paths) reads =
      rw
        (
          reads path (rw (beq_self path) refl),
          numbered_lem number paths λ p h. reads p (ground (arith, h)),
          numbered,
        )
        refl

  run_and_wait_lem :
      (suffix : Text) (cmds : List (List Text))
      → let names = names_from 0 suffix cmds in
        run_and_wait H suffix cmds ≡ (
          ok tt,
          record { suffix = suffix; containers = names; events = starts names cmds ++ ends names },
        )
  unfolding wait
  run_and_wait_lem suffix cmds =
      rw
        (run_all_lem H dir there runs cmds
          (record { suffix = suffix; containers = []; events = [] }))
        (wait_for_lem H waits (names_from 0 suffix cmds) (record {
          suffix = suffix;
          containers = names_from 0 suffix cmds;
          events = starts (names_from 0 suffix cmds) cmds;
        }))

  -- Run as a script, where no container fails to start or to be waited for and each route file that is
  -- found has a number, `run_simulations` returns. It has started one container for each route file, in
  -- the order of their numbers and, of the same number, in the order in which they were found, under
  -- different names, and after the last start it has waited for each, in the order of the starts, and
  -- cleaned it up before it waits for the next.
  pub run_simulations-waits :
      (suffix net prefix : Text) (number : Text → ℕ)
      → ((path : Text)
          → contains (route_files H prefix) path ≡ true
          → H.int (take 3 (H.basename path)) ≡ some (number path))
      → let files = number_each number (route_files H prefix) in
        (sorted : List (ℕ × Text)) × IsRising 0 sorted
        × ((n : ℕ) → with_number n sorted ≡ with_number n files)
        × (let cmds =
              commands H L (simulation_command H L net prefix) 0 (map (λ key. key.1) sorted) in
            let names = names_from 0 suffix cmds in
            (run_simulations H L suffix net prefix ≡ (
              ok tt,
              record {
                suffix = suffix;
                containers = names;
                events = starts names cmds ++ ends names;
              },
            ))
            × IsSetList names
            × (length names ≡ length (route_files H prefix)))
  unfolding run_simulations
  run_simulations-waits suffix net prefix number reads =
      let files = number_each number (route_files H prefix) in
      let cmds = commands H L (simulation_command H L net prefix) 0 (by_number H files) in
      (
        sort before files,
        sort-IsRising files,
        λ n. with_number-sort n files,
        (
          ap (run_sorted H L (simulation_command H L net prefix) suffix)
                (numbered_lem number (route_files H prefix) reads)
              ∙ run_and_wait_lem suffix cmds,
          names_from-IsSetList 0 suffix cmds,
          length-names_from 0 0 suffix (by_number H files)
              ∙ (length-map (λ key. key.1) (sort before files)
                  ∙ (length-sort before files ∙ length-number_each number (route_files H prefix))),
        ),
      )
    where
      length-names_from :
          (n i : ℕ) (s : Text) (paths : List Text)
          → length (names_from n s (commands H L (simulation_command H L net prefix) i paths))
            ≡ length paths
      length-names_from n i s [] = refl
      length-names_from n i s (path ∷ paths) = ap suc (length-names_from (n + 1) (i + 1) s paths)

-- Imported as a module, where `root` is not set, no container starts: the first one raises NameError.
run_and_wait_without_root :
    (H : Host) (suffix : Text) (cmd : List Text) (cmds : List (List Text))
    → H.root ≡ none
    → run_and_wait H suffix (cmd ∷ cmds)
      ≡ (err name_error, record { suffix = suffix; containers = []; events = [] })
unfolding create_and_run
run_and_wait_without_root H suffix cmd cmds gone = rw gone refl
