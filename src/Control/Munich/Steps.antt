-- ===== src/Control/Munich/Steps.antt =====
-- control.py of mucFreiheit_route_choice_app: one step of `AvoidShort`, as a whole.
use crownet.Prelude.{
  ℕ, ◌+◌, ◌≡◌, refl, inl, inr, Option, none, some, List, [], ◌∷◌, ◌++◌, map, text, decimal, ok,
  Option-cases,
}
use mathlib.Core.List.{append_assoc}
use crownet.Control.{
  Target, named, target, of_answer, stimulus, densities, path_choice, Call, get_density_map,
  get_obstacles, get_measurement_area_shape, send_control, update_sim_time, write, forward_time,
  Flow,
}
use crownet.Control.Munich.{
  Watch, Input, last, send_recommendation_if_necessary, get_stimulus_info, handle_sim_step,
  measure_state,
}

pub last-append {ℓ} : {A : Type ℓ} (xs : List A) (x : A) → last (xs ++ (x ∷ [])) ≡ some x
last-append [] x = refl
last-append (y ∷ []) x = refl
last-append (y ∷ z ∷ xs) x = last-append (z ∷ xs) x

-- What a step asks the simulator for before it has a mapper.
abbrev pub setup : {A D : Type 0} → Option A → List (Call D)
setup (some m) = []
setup none =
    get_obstacles
    ∷ get_measurement_area_shape (decimal 1)
    ∷ get_measurement_area_shape (decimal 2)
    ∷ get_measurement_area_shape (decimal 3)
    ∷ []

-- Every recommendation that is sent is written first, and a missing one is written as skipped.
abbrev pub advise : {D : Type 0} → Option ℕ → ℕ → List (Call D)
advise none t = write (text "path_choice") (path_choice (named (text "skipped"))) ∷ []
advise (some n) t =
    write (text "path_choice") (path_choice (target n))
    ∷ send_control (stimulus (get_stimulus_info (target n) t)) (some (text "World.misc[0].app[0]"))
    ∷ []

abbrev pub updated : (F : Flow) → Option F.Field → F.Mapper → F.Mapper
updated F none m = m
updated F (some result) m = F.update_density result m

module _ {F : Flow} where
  -- A controller that `handle_init` has opened, and whose base class counts commands.
  abbrev pub opened :
      Option F.Mapper → List (List F.Density) → F.Algorithm → Option Target → ℕ → Watch F
  opened m history a t c = record {
    density_over_time = history;
    control_algorithm = a;
    density_mapper = some m;
    detour_app = some (text "World.misc[0].app[0]");
    density_app = some (text "World.misc[0].app[1].app");
    current_target = t;
    command_id = some c;
  }

  -- The mapper that a step works on: the one from before, or one for the map's dimensions, the
  -- measurement areas 1, 2 and 3, and the obstacles.
  abbrev pub mapper_for : Option F.Mapper → Input F → F.Mapper
  mapper_for (some m) i = m
  mapper_for none i =
      F.new_mapper i.density_map.0 i.density_map.1
        ((1, F.polygon (i.area_shape (decimal 1)))
          ∷ (2, F.polygon (i.area_shape (decimal 2)))
          ∷ (3, F.polygon (i.area_shape (decimal 3)))
          ∷ [])
        (map (λ o. F.polygon o.1) i.obstacles)

  abbrev pub mapper_after : Option F.Mapper → Input F → F.Mapper
  mapper_after k i = updated F i.density_map.2 (mapper_for k i)

  abbrev pub step_calls : Option F.Mapper → Input F → Option ℕ → List (Call F.Density)
  step_calls k i o =
      update_sim_time i.sim_time
      ∷ get_density_map (text "World.misc[0].app[1].app")
      ∷ (setup k
          ++ (write (text "densities_mapped") (densities (F.get_density_in_area (mapper_after k i)))
              ∷ (advise o i.sim_time ++ (forward_time ∷ []))))

  abbrev measure_calls : Option F.Mapper → Input F → List (Call F.Density)
  measure_calls k i =
      get_density_map (text "World.misc[0].app[1].app")
      ∷ (setup k
          ++ (write (text "densities_mapped") (densities (F.get_density_in_area (mapper_after k i)))
              ∷ []))

  measure_state_lem :
      (k : Option F.Mapper) (history : List (List F.Density)) (a : F.Algorithm) (t : Option Target)
      (c : ℕ) (i : Input F)
      → measure_state i (opened k history a t c) ≡ (
        ok tt,
        opened
            (some (mapper_after k i))
            (history ++ (F.get_density_in_area (mapper_after k i) ∷ []))
            a
            t
            c,
        measure_calls k i,
      )
  unfolding measure_state
  measure_state_lem none history a t c i = elim (Option-cases i.density_map.2) [
    | inl e ↦ rw e
    | inr (r, e) ↦ rw e
  ]
  measure_state_lem (some m) history a t c i = elim (Option-cases i.density_map.2) [
    | inl e ↦ rw e
    | inr (r, e) ↦ rw e
  ]

  send_recommendation_lem :
      (m : F.Mapper) (history : List (List F.Density)) (a : F.Algorithm) (t : Option Target)
      (c time : ℕ) (x y z : F.Density) (rest : List F.Density)
      → let advice = F.next_avoiding x z a in
        send_recommendation_if_necessary time
          (opened (some m) (history ++ ((x ∷ y ∷ z ∷ rest) ∷ [])) a t c)
        ≡ (
          ok tt,
          opened
              (some m)
              (history ++ ((x ∷ y ∷ z ∷ rest) ∷ []))
              advice.1
              (some (of_answer advice.0))
              c,
          advise advice.0 time,
        )
  unfolding send_recommendation_if_necessary
  send_recommendation_lem m history a t c time x y z rest =
      elim (Option-cases (F.next_avoiding x z a).0) [
        | inl e ↦ rw (last-append history (x ∷ y ∷ z ∷ rest), e) refl
        | inr (n, e) ↦ rw (last-append history (x ∷ y ∷ z ∷ rest), e) refl
      ]

  -- A step of an opened controller whose map gives at least three densities returns. It builds the
  -- mapper if there is none, feeds it the received map unless that is `None`, keeps and writes the
  -- measured densities, asks the algorithm with those of the first and the third area, writes `skipped`
  -- or writes and sends the recommended target, counts one command and goes on, in this order.
  pub handle_sim_step_munich :
      (k : Option F.Mapper) (history : List (List F.Density)) (a : F.Algorithm) (t : Option Target)
      (c : ℕ) (i : Input F) (x y z : F.Density) (rest : List F.Density)
      → F.get_density_in_area (mapper_after k i) ≡ x ∷ y ∷ z ∷ rest
      → let advice = F.next_avoiding x z a in
        handle_sim_step i (opened k history a t c) ≡ (
          ok tt,
          opened
              (some (mapper_after k i))
              (history ++ (F.get_density_in_area (mapper_after k i) ∷ []))
              advice.1
              (some (of_answer advice.0))
              (c + 1),
          step_calls k i advice.0,
        )
  unfolding handle_sim_step
  handle_sim_step_munich k history a t c i x y z rest h =
      rw
        (
          measure_state_lem k history a t c i,
          h,
          send_recommendation_lem (mapper_after k i) history a t c i.sim_time x y z rest,
        )
        (simp append_assoc)
