-- ===== src/Control/Route/Recorded.antt =====
-- control.py of route_choice_app: which files a session writes, and which processors are known then.
use crownet.Prelude.{
  ℕ, ◌≡◌, refl, true, List, [], ◌∷◌, ◌++◌, Text, text, Result, ok, err, contains, Bool-cases, inl,
  inr, list_eq, nat_eq,
}
use crownet.Control.{Call, register_processor, write, finish, after, each, Flow}
use crownet.Control.Logs.{All, All-append, Keeps, each-Keeps}
use crownet.Control.Route.{
  Controller, local_controller, no_controller, open_loop, closed_loop, avoid_short, Local, Input,
  handle_sim_step, handle_init, write_data, is_target,
}
use crownet.Control.Route.Steps.{chosen, sends}
use crownet.Control.Route.Sessions.{session, step-Keeps}

-- Each `write` names a processor that was registered before it.
abbrev pub IsRegistered : {D : Type 0} → List Text → List (Call D) → Type 0
IsRegistered known [] = Unit
IsRegistered known (register_processor name file header ∷ calls) = IsRegistered (name ∷ known) calls
IsRegistered known (write name w ∷ calls) = (contains known name ≡ true) × IsRegistered known calls
IsRegistered known (_ ∷ calls) = IsRegistered known calls

-- A call that registers nothing and writes to one of the known processors.
abbrev pub Uses : {D : Type 0} → List Text → Call D → Type 0
Uses known (register_processor name file header) = ⊥
Uses known (write name w) = contains known name ≡ true
Uses known _ = Unit

pub All-IsRegistered :
    {D : Type 0} (known : List Text) (calls : List (Call D))
    → All (Uses known) calls
    → IsRegistered known calls
All-IsRegistered known [] h = tt
All-IsRegistered known (register_processor name file header ∷ calls) h = absurd h.0
All-IsRegistered known (write name w ∷ calls) h = (h.0, All-IsRegistered known calls h.1)
All-IsRegistered known (_ ∷ calls) h = All-IsRegistered known calls h.1

abbrev both : List Text
both = text "path_choice" ∷ text "densities_received" ∷ []

module _ {F : Flow} where
  sends-Uses : (k : Controller) (s : Local F) (t : ℕ) → All (Uses both) (sends k s t)
  sends-Uses local_controller s t = (tt, tt)
  sends-Uses no_controller s t = tt
  sends-Uses open_loop s t = (tt, tt)
  sends-Uses closed_loop s t = (tt, tt)
  sends-Uses avoid_short s t =
      elim (Bool-cases (is_target s.current_target s.alternative_route_id)) [
        | inl same ↦ rw same (tt, tt)
        | inr other ↦ rw other tt
      ]

  step-Uses :
      (k : Controller) (i : Input F) (s : Local F)
      → Unit {0}
      → Keeps (λ _. Unit) (Uses both) (handle_sim_step k i s)
  step-Uses k i s h =
      step-Keeps (λ _. Unit) (Uses both) k i s (tt, (tt, (tt, tt)))
        (λ a. (tt, sends-Uses k (chosen k i s a) i.sim_time, (tt, (refl, (refl, (tt, tt))))))
        (tt, (tt, (refl, (refl, (tt, tt)))))

  -- In a session of any controller, also one that an exception ends, every `write` to the processor
  -- manager names a processor that was registered before.
  pub session-IsRegistered :
      (k : Controller) (dir : Text) (inputs : List (Input F)) (s : Local F)
      → IsRegistered [] (session k dir inputs s).2
  unfolding session handle_init write_data
  session-IsRegistered k dir inputs s =
      go (each (handle_sim_step k) inputs s)
        (each-Keeps (λ _. Unit) (Uses both) (handle_sim_step k) (step-Uses k) inputs s tt).1
    where
      go :
          (made : Result (Unit {0}) × Local F × List (Call F.Density))
          → All (Uses both) made.2
          → IsRegistered [] (after (after (handle_init dir s) (λ _ _. made)) (λ _. write_data)).2
      go (ok a, t, calls) h =
          All-IsRegistered both (calls ++ (finish ∷ []))
            (All-append (Uses both) calls (finish ∷ []) h (tt, tt))
      go (err raised, t, calls) h = All-IsRegistered both calls h
