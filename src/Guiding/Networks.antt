-- ===== src/Guiding/Networks.antt =====
-- run_simulations.py: the docker network of a controller.
use crownet.Prelude.{
  ℕ, ◌≡◌, refl, ap, Bool, true, false, ◌||◌, List, [], ◌∷◌, ◌++◌, Text, some, list_eq, list_beq,
  nat_eq, beq_self, contains, ok, err, Exception, arith,
}
use crownet.Guiding.{
  Host, World, Sample, without, export, network_id, parameters_path, run_controller,
}

or_false : (a b : Bool) → (a || b) ≡ false → (a ≡ false) × (b ≡ false)
or_false a b h = ground (arith, h)

without-absent : (id : Text) (ns : List Text) → contains ns id ≡ false → without id ns ≡ ns
without-absent id [] h = refl
without-absent id (n ∷ ns) h =
    let (other, rest) = or_false (list_beq id n) (contains ns id) h in
    rw other (ap (λ r. n ∷ r) (without-absent id ns rest))

without-append :
    (id : Text) (ns : List Text) → contains ns id ≡ false → without id (ns ++ (id ∷ [])) ≡ ns
without-append id [] h = rw (beq_self id) refl
without-append id (n ∷ ns) h =
    let (other, rest) = or_false (list_beq id n) (contains ns id) h in
    rw other (ap (λ r. n ∷ r) (without-append id ns rest))

module _ (H : Host) where
  open H use {F, Table}

  -- Writing tables leaves the networks alone.
  export_lem :
      (dir controller : Text) (tables : List (Text × Table)) (w : World Table)
      → (files : List (Text × Table)) × (export H dir controller tables w
          ≡ (ok tt, record w { files = files }))
  export_lem dir controller [] w = (w.files, refl)
  export_lem dir controller ((qoi, vals) ∷ tables) w = export_lem dir controller tables _

  -- Where the home of CrowNet is set and docker removes the network of the controller, which is not there
  -- before: if the simulations return, the networks after the run are those before it. If they raise, the
  -- run raises the same, and the network that it has made stays.
  pub run_controller-networks :
      (controller home : Text) (qoi : List Text) (par_var : List (Sample F)) (dir : Text) (n : ℕ)
      (w : World Table)
      → H.crownet_home ≡ some home
      → H.removable (network_id H controller) ≡ true
      → contains w.networks (network_id H controller) ≡ false
      → ((found : Table × List (Text × Table))
          → H.simulate home controller qoi par_var n ≡ ok found
          → (files : List (Text × Table)) × (run_controller H controller qoi par_var dir n w
              ≡ (ok tt, record { networks = w.networks; files = files })))
        × ((raised : Exception)
            → H.simulate home controller qoi par_var n ≡ err raised
            → run_controller H controller qoi par_var dir n w
              ≡ (err raised, record w { networks = w.networks ++ (network_id H controller ∷ []) }))
  unfolding run_controller
  run_controller-networks controller home qoi par_var dir n w there removed new = (
    λ found ran.
        let (files, exported) = export_lem dir controller found.1 (written found) in
        (files, returns found files ran exported),
    λ raised ran.
        rw (there, removed, without-absent (network_id H controller) w.networks new, ran) refl,
  )
    where
      written : Table × List (Text × Table) → World Table
      written found = record {
        networks = w.networks ++ (network_id H controller ∷ []);
        files = (parameters_path H dir controller, found.0) ∷ w.files;
      }

      returns :
          (found : Table × List (Text × Table)) (files : List (Text × Table))
          → H.simulate home controller qoi par_var n ≡ ok found
          → export H dir controller found.1 (written found)
            ≡ (ok tt, record (written found) { files = files })
          → run_controller H controller qoi par_var dir n w
            ≡ (ok tt, record { networks = w.networks; files = files })
      returns found files ran exported =
          rw
            (
              there,
              removed,
              without-absent (network_id H controller) w.networks new,
              ran,
              exported,
              without-append (network_id H controller) w.networks new,
            )
            refl
