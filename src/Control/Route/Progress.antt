-- ===== src/Control/Route/Progress.antt =====
-- control.py of route_choice_app: a session goes on, and its recommendations do not overlap.
use crownet.Prelude.{
  ℕ, suc, ◌+◌, ◌≤◌, ◌≡◌, ◌≢◌, refl, sym, ap, ◌∙◌, inl, inr, ◌⊎◌, none, some, List, [], ◌∷◌, ◌++◌,
  Text, Result, ok, err, attribute_error, arith, length, Option-cases, Bool-cases,
}
use mathlib.Core.List.{append_assoc, append-nil}
use crownet.Control.{Message, stimulus, action, Call, send_control, finish, after, each, Flow}
use crownet.Control.Logs.{Returns, forwards, forwards-append, each-forwards}
use crownet.Control.Route.{
  Controller, local_controller, no_controller, open_loop, closed_loop, avoid_short, Local, Input,
  handle_sim_step, handle_init, write_data, init, is_target, get_stimulus_info,
}
use crownet.Control.Route.Steps.{
  chosen, sends, records, reads, handle_sim_step_lem, handle_sim_step_unset, without_algorithm,
}
use crownet.Control.Route.Sessions.{session}

-- Every class but the base class with its default argument has what its step needs.
abbrev Ready : {F : Flow} → Controller → Local F → Type 0
Ready {F} no_controller s = s.control_algorithm ≡ none
Ready {F} k s = (a : F.Algorithm) × (s.control_algorithm ≡ some a)

-- The windows in which the receivers follow the messages that were sent.
abbrev window_of : Message → List (ℕ × ℕ)
window_of (stimulus s) = elim s.timeframe [ none ↦ [] | some w ↦ w ∷ [] ]
window_of (action model a) = []

abbrev pub windows : {D : Type 0} → List (Call D) → List (ℕ × ℕ)
windows [] = []
windows (send_control m receiver ∷ calls) = window_of m ++ windows calls
windows (_ ∷ calls) = windows calls

-- Windows one after the other, the first not before a time, each closed before the next opens.
abbrev pub IsApart : ℕ → List (ℕ × ℕ) → Type 0
IsApart from [] = Unit
IsApart from ((start, end_time) ∷ rest) =
    (from ≤ start) × (start ≤ end_time) × IsApart (suc end_time) rest

-- Steps that lie at least a time apart.
abbrev pub IsSpaced : {F : Flow} → ℕ → ℕ → List (Input F) → Type 0
IsSpaced step from [] = Unit
IsSpaced step from (i ∷ rest) = (from ≤ i.sim_time) × IsSpaced step (i.sim_time + step) rest

IsApart-sooner : (a b : ℕ) (ws : List (ℕ × ℕ)) → a ≤ b → IsApart b ws → IsApart a ws
IsApart-sooner a b [] le h = tt
IsApart-sooner a b ((start, end_time) ∷ ws) le h = (omega arith, h.1, h.2)

windows-append :
    {D : Type 0} (xs ys : List (Call D)) → windows (xs ++ ys) ≡ windows xs ++ windows ys
windows-append [] ys = refl
windows-append (send_control m receiver ∷ xs) ys =
    ap (λ ws. window_of m ++ ws) (windows-append xs ys)
    ∙ sym (append_assoc (window_of m) (windows xs) (windows ys))
windows-append (_ ∷ xs) ys = windows-append xs ys

init-Ready : (F : Flow) (k : Controller) → k ≢ local_controller → Ready k (init F k)
unfolding init
init-Ready F local_controller h = absurd (h refl)
init-Ready F no_controller h = refl
init-Ready F open_loop h = (_, refl)
init-Ready F closed_loop h = (_, refl)
init-Ready F avoid_short h = (_, refl)

module _ {F : Flow} where
  forwards-sends : (k : Controller) (s : Local F) (t : ℕ) → forwards (sends k s t) ≡ 0
  forwards-sends local_controller s t = refl
  forwards-sends no_controller s t = refl
  forwards-sends open_loop s t = refl
  forwards-sends closed_loop s t = refl
  forwards-sends avoid_short s t =
      elim (Bool-cases (is_target s.current_target s.alternative_route_id)) [
        | inl same ↦ rw same refl
        | inr other ↦ rw other refl
      ]

  forwards_once :
      (k : Controller) (s : Local F) (t : ℕ) → forwards (reads ++ (sends k s t ++ records s t)) ≡ 1
  forwards_once k s t =
      forwards-append (sends k s t) (records s t) ∙ omega (arith, forwards-sends k s t)

  step-Returns :
      (k : Controller) (i : Input F) (s : Local F)
      → Ready k s
      → Returns (Ready k) (handle_sim_step k i s) × (forwards (handle_sim_step k i s).2 ≡ 1)
  step-Returns local_controller i s (a, h) =
      rw (handle_sim_step_lem local_controller i s a h) (((F.next_of a).1, refl), refl)
  step-Returns no_controller i s h = rw (handle_sim_step_unset no_controller i s h) (h, refl)
  step-Returns open_loop i s (a, h) =
      rw (handle_sim_step_lem open_loop i s a h) (((F.next_of a).1, refl), refl)
  step-Returns closed_loop i s (a, h) =
      rw (handle_sim_step_lem closed_loop i s a h) ((_, refl), refl)
  step-Returns avoid_short i s (a, h) =
      rw (handle_sim_step_lem avoid_short i s a h)
        ((_, refl), forwards_once avoid_short (chosen avoid_short i s a) i.sim_time)

  -- A session of any class but the base class returns, whatever is measured and answered, and the
  -- time stepper is told to go on exactly once for each step of the simulator.
  pub session_goes_on :
      (k : Controller) (dir : Text) (inputs : List (Input F))
      → k ≢ local_controller
      → ((session k dir inputs (init F k)).0 ≡ ok tt)
        × (forwards (session k dir inputs (init F k)).2 ≡ length inputs)
  unfolding session handle_init write_data
  session_goes_on k dir inputs h = go (each (handle_sim_step k) inputs (init F k)) (
      each-forwards (Ready k) (handle_sim_step k) (step-Returns k) inputs (init F k)
        (init-Ready F k h))
    where
      go :
          (made : Result (Unit {0}) × Local F × List (Call F.Density))
          → Returns (Ready k) made × (forwards made.2 ≡ length inputs)
          → let whole =
              after (after (handle_init dir (init F k)) (λ _ _. made)) (λ _. write_data) in
            (whole.0 ≡ ok tt) × (forwards whole.2 ≡ length inputs)
      go (ok a, t, calls) (r, once) =
          (refl, omega (arith, once, forwards-append calls (finish ∷ [])))
      go (err raised, t, calls) (r, once) = absurd r

  -- The base class with its default argument, which is no algorithm: a session with a step ends in
  -- AttributeError, and the time stepper is never told to go on.
  pub session_without_algorithm :
      (dir : Text) (i : Input F) (inputs : List (Input F))
      → ((session local_controller dir (i ∷ inputs) (init F local_controller)).0
          ≡ err attribute_error)
        × (forwards (session local_controller dir (i ∷ inputs) (init F local_controller)).2 ≡ 0)
  unfolding session handle_init init
  session_without_algorithm dir i inputs =
      rw (handle_sim_step_unset local_controller i (init F local_controller) refl) (refl, refl)

  step_windows :
      (k : Controller) (i : Input F) (s : Local F)
      → (windows (handle_sim_step k i s).2 ≡ [])
        ⊎ (windows (handle_sim_step k i s).2 ≡ (i.sim_time, i.sim_time + 16) ∷ [])
  unfolding get_stimulus_info
  step_windows k i s = elim (Option-cases s.control_algorithm) [
    | inl e ↦ rw (handle_sim_step_unset k i s e) (without k)
    | inr (a, e) ↦ rw (handle_sim_step_lem k i s a e) (with_one k (chosen k i s a))
  ]
    where
      without :
          (j : Controller)
          → (windows (without_algorithm j i s).2 ≡ [])
            ⊎ (windows (without_algorithm j i s).2 ≡ (i.sim_time, i.sim_time + 16) ∷ [])
      without local_controller = inl refl
      without no_controller = inl refl
      without open_loop = inl refl
      without closed_loop = inl refl
      without avoid_short = inl refl

      with_one :
          (j : Controller) (t : Local F)
          → let calls = reads ++ (sends j t i.sim_time ++ records t i.sim_time) in
            (windows calls ≡ []) ⊎ (windows calls ≡ (i.sim_time, i.sim_time + 16) ∷ [])
      with_one local_controller t = inr refl
      with_one no_controller t = inl refl
      with_one open_loop t = inr refl
      with_one closed_loop t = inr refl
      with_one avoid_short t =
          elim (Bool-cases (is_target t.current_target t.alternative_route_id)) [
            | inl same ↦ rw same (inr refl)
            | inr other ↦ rw other (inl refl)
          ]

  each-IsApart :
      (k : Controller) (inputs : List (Input F)) (s : Local F) (from : ℕ)
      → IsSpaced 20 from inputs
      → IsApart from (windows (each (handle_sim_step k) inputs s).2)
  each-IsApart k [] s from h = tt
  each-IsApart k (i ∷ inputs) s from h =
      go (handle_sim_step k i s) (step_windows k i s)
        λ t. each-IsApart k inputs t (i.sim_time + 20) h.1
    where
      go :
          (made : Result (Unit {0}) × Local F × List (Call F.Density))
          → (windows made.2 ≡ []) ⊎ (windows made.2 ≡ (i.sim_time, i.sim_time + 16) ∷ [])
          → ((t : Local F)
              → IsApart (i.sim_time + 20) (windows (each (handle_sim_step k) inputs t).2))
          → IsApart from (windows (after made (λ _. each (handle_sim_step k) inputs)).2)
      go (ok a, t, calls) (inl e) rest =
          rw (windows-append calls (each (handle_sim_step k) inputs t).2, e)
            (IsApart-sooner from (i.sim_time + 20) (windows (each (handle_sim_step k) inputs t).2)
              (omega (arith, h.0)) (rest t))
      go (ok a, t, calls) (inr e) rest =
          rw (windows-append calls (each (handle_sim_step k) inputs t).2, e)
            (
              h.0,
              omega arith,
              IsApart-sooner (suc (i.sim_time + 16)) (i.sim_time + 20)
                  (windows (each (handle_sim_step k) inputs t).2) (omega arith) (rest t),
            )
      go (err raised, t, calls) (inl e) rest = rw e tt
      go (err raised, t, calls) (inr e) rest = rw e (h.0, omega arith, tt)

  -- If the simulator's steps lie at least the step size of the time stepper, 2.0 seconds, apart, no two
  -- recommendations of a session are in force together: each window of 1.6 seconds is closed before the
  -- next message opens another. No window opens before the first step's time.
  pub session-IsApart :
      (k : Controller) (dir : Text) (inputs : List (Input F)) (from : ℕ)
      → IsSpaced 20 from inputs
      → IsApart from (windows (session k dir inputs (init F k)).2)
  unfolding session handle_init write_data
  session-IsApart k dir inputs from h =
      go (each (handle_sim_step k) inputs (init F k)) (each-IsApart k inputs (init F k) from h)
    where
      go :
          (made : Result (Unit {0}) × Local F × List (Call F.Density))
          → IsApart from (windows made.2)
          → IsApart from (
              windows
                (after (after (handle_init dir (init F k)) (λ _ _. made)) (λ _. write_data)).2)
      go (ok a, t, calls) q = rw (windows-append calls (finish ∷ []), append-nil) q
      go (err raised, t, calls) q = q
