-- ===== src/Control/Route/Sessions.antt =====
-- control.py of route_choice_app: a whole session, from `handle_init` over the steps that the
-- simulator asks for to `write_data`.
use crownet.Prelude.{
  ℕ, ◌≡◌, refl, ap, ◌∙◌, inl, inr, true, none, some, ◌+◌, List, ◌++◌, Text, text, arith, list_eq,
  Option-cases, Bool-cases, decimal,
}
use crownet.Control.{
  rectangle, Target, target, named, nothing, Call, stimulus, path_choice, send_control, write,
  finish, Flow, M, ◌>>◌, each,
}
use crownet.Control.Logs.{All, All-append, Keeps, after-Keeps, each-Keeps}
use crownet.Control.Route.{
  Controller, local_controller, no_controller, open_loop, closed_loop, avoid_short, Local, Input,
  get_stimulus_info, handle_sim_step, handle_init, write_data, init, is_target,
}
use crownet.Control.Route.Steps.{
  chosen, handle_sim_step_lem, handle_sim_step_unset, sends, reads, records, unset,
  without_algorithm,
}

unfoldable pub session :
    {F : Flow} → Controller → Text → List (Input F) → M F.Density (Local F) (Unit {0})
session k dir inputs = handle_init dir >> each (handle_sim_step k) inputs >> write_data

-- Only the message that recommends target 31 in a window of 1.6 seconds, with no sending node.
abbrev pub SendsOnly31 : {D : Type 0} → Call D → Type 0
SendsOnly31 (send_control m receiver) =
    ((t : ℕ) × (m
        ≡ stimulus (record {
          areas = rectangle 0 0 250 250;
          stimuli = text "use target 31";
          timeframe = some (t, t + 16);
        })))
    × (receiver ≡ none)
SendsOnly31 _ = Unit

abbrev pub SendsNothing : {D : Type 0} → Call D → Type 0
SendsNothing (send_control m receiver) = ⊥
SendsNothing (write name (path_choice t)) = t ≡ named (text "none")
SendsNothing _ = Unit

is_target-eq : (t : Target) (n : ℕ) → is_target t n ≡ true → t ≡ target n
is_target-eq (named x) n h = cc
is_target-eq (target m) n h = ground arith
is_target-eq nothing n h = cc

module _ {F : Flow} where
  pub session-Keeps :
      (Inv : Local F → Type 0) (P : Call F.Density → Type 0) (k : Controller)
      → ((i : Input F) (s : Local F) → Inv s → Keeps Inv P (handle_sim_step k i s))
      → (dir : Text) (inputs : List (Input F)) (s : Local F) → Keeps Inv P (handle_init dir s)
      → P finish
      → Keeps Inv P (session k dir inputs s)
  unfolding session write_data
  session-Keeps Inv P k one dir inputs s first last =
      after-Keeps Inv P ((handle_init dir >> each (handle_sim_step k) inputs) s) (λ _. write_data)
        (after-Keeps Inv P (handle_init dir s) (λ _. each (handle_sim_step k) inputs) first
          (λ _ t h. each-Keeps Inv P (handle_sim_step k) one inputs t h))
        (λ _ t h. (h, (last, tt)))

  -- A step with an algorithm, and one without, in which only NoController goes on.
  pub step-Keeps :
      (Inv : Local F → Type 0) (P : Call F.Density → Type 0) (k : Controller) (i : Input F)
      (s : Local F)
      → All P reads
      → ((a : F.Algorithm)
          → Inv (chosen k i s a)
            × All P (sends k (chosen k i s a) i.sim_time)
            × All P (records (chosen k i s a) i.sim_time))
      → Inv (unset i s) × All P (records (unset i s) i.sim_time)
      → Keeps Inv P (handle_sim_step k i s)
  step-Keeps Inv P k i s reading_ok with_one without = elim (Option-cases s.control_algorithm) [
    | inl e ↦ rw (handle_sim_step_unset k i s e) (stopped k)
    | inr (a, e) ↦ rw (handle_sim_step_lem k i s a e) (
        (
          (with_one a).0,
          All-append P reads
              (sends k (chosen k i s a) i.sim_time ++ records (chosen k i s a) i.sim_time)
              reading_ok
              (All-append P (sends k (chosen k i s a) i.sim_time)
                (records (chosen k i s a) i.sim_time) (with_one a).1 (with_one a).2),
        ))
  ]
    where
      stopped : (j : Controller) → Keeps Inv P (without_algorithm j i s)
      stopped local_controller = (without.0, reading_ok)
      stopped no_controller =
          (without.0, All-append P reads (records (unset i s) i.sim_time) reading_ok without.1)
      stopped open_loop = (without.0, reading_ok)
      stopped closed_loop = (without.0, reading_ok)
      stopped avoid_short = (without.0, reading_ok)

  abbrev Only31 : Local F → Type 0
  Only31 s = s.alternative_route_id ≡ 31

  abbrev Undecided : Local F → Type 0
  Undecided s = s.current_target ≡ named (text "none")

  sends_only_31 : (s : Local F) (t : ℕ) → Only31 s → All SendsOnly31 (sends avoid_short s t)
  unfolding get_stimulus_info decimal
  sends_only_31 s t h = elim (Bool-cases (is_target s.current_target s.alternative_route_id)) [
    | inl same ↦ rw same (
      (
        (
          t,
          ap (λ x. stimulus (get_stimulus_info x t))
              (is_target-eq s.current_target s.alternative_route_id same ∙ ap target h),
        ),
        refl,
      ),
      tt,
    )
    | inr other ↦ rw other tt
  ]

  avoid_short_step :
      (i : Input F) (s : Local F)
      → Only31 s
      → Keeps Only31 SendsOnly31 (handle_sim_step avoid_short i s)
  avoid_short_step i s h =
      step-Keeps Only31 SendsOnly31 avoid_short i s (tt, (tt, (tt, tt)))
        (λ a.
          (h, sends_only_31 (chosen avoid_short i s a) i.sim_time h, (tt, (tt, (tt, (tt, tt))))))
        (h, (tt, (tt, (tt, (tt, tt)))))

  no_controller_step :
      (i : Input F) (s : Local F)
      → Undecided s
      → Keeps Undecided SendsNothing (handle_sim_step no_controller i s)
  no_controller_step i s h =
      step-Keeps Undecided SendsNothing no_controller i s (tt, (tt, (tt, tt)))
        (λ a. (h, tt, (tt, (tt, (h, (tt, tt)))))) (h, (tt, (tt, (h, (tt, tt)))))

  -- Whatever the simulator and the congestion algorithm answer, and also when the session ends in an
  -- exception: every message that AvoidShort sends recommends its alternative route, target 31, names
  -- no sending node, and holds for 1.6 seconds from some time on.
  pub avoid_short-only_31 :
      (dir : Text) (inputs : List (Input F))
      → All SendsOnly31 (session avoid_short dir inputs (init F avoid_short)).2
  unfolding handle_init init
  avoid_short-only_31 dir inputs =
      (session-Keeps Only31 SendsOnly31 avoid_short avoid_short_step dir inputs (init F avoid_short)
        (refl, (tt, (tt, tt))) tt).1

  -- NoController sends no message in a session, and writes `none` as the choice of each step.
  pub no_controller-silent :
      (dir : Text) (inputs : List (Input F))
      → All SendsNothing (session no_controller dir inputs (init F no_controller)).2
  unfolding handle_init init
  no_controller-silent dir inputs =
      (session-Keeps Undecided SendsNothing no_controller no_controller_step dir inputs
        (init F no_controller) (refl, (tt, (tt, tt))) tt).1
