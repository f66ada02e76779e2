-- ===== src/Control/Munich/Sessions.antt =====
-- control.py of mucFreiheit_route_choice_app: a whole session, from `handle_init` over the steps that
-- the simulator asks for to `write_data`.
use crownet.Prelude.{
  ℕ, suc, ◌+◌, ◌≡◌, ◌∙◌, refl, ap, Option, none, some, List, [], ◌∷◌, ◌++◌, Text, length,
  length-append, Result, ok, err, arith,
}
use crownet.Control.{Call, Target, of_answer, get_obstacles, finish, M, after, ◌>>◌, each, Flow}
use crownet.Control.Logs.{forwards, forwards-append}
use crownet.Control.Munich.{Watch, Input, init, handle_init, handle_sim_step, write_data}
use crownet.Control.Munich.Steps.{opened, mapper_after, step_calls, handle_sim_step_munich}

unfoldable pub session : {F : Flow} → Text → List (Input F) → M F.Density (Watch F) (Unit {0})
session dir inputs = handle_init dir >> each handle_sim_step inputs >> write_data

-- How often the simulator is asked for all its obstacles.
abbrev pub surveys : {D : Type 0} → List (Call D) → ℕ
surveys [] = 0
surveys (get_obstacles ∷ calls) = suc (surveys calls)
surveys (_ ∷ calls) = surveys calls

surveys-append : {D : Type 0} (xs ys : List (Call D)) → surveys (xs ++ ys) ≡ surveys xs + surveys ys
surveys-append [] ys = omega arith
surveys-append (get_obstacles ∷ xs) ys = omega (arith, surveys-append xs ys)
surveys-append (_ ∷ xs) ys = surveys-append xs ys

-- Only a controller without a mapper surveys, in its first step.
abbrev pub due : {A B : Type 0} → Option A → List B → ℕ
due (some m) inputs = 0
due none [] = 0
due none (i ∷ inputs) = 1

three_of :
    {A : Type 0} (xs : List A) → length xs ≡ 3 → (x : A) × (y : A) × (z : A) × (xs ≡ x ∷ y ∷ z ∷ [])
three_of [] h = absurd (omega arith)
three_of (x ∷ []) h = absurd (omega arith)
three_of (x ∷ y ∷ []) h = absurd (omega arith)
three_of (x ∷ y ∷ z ∷ []) h = (x, y, z, refl)
three_of (x ∷ y ∷ z ∷ u ∷ xs) h = absurd (omega arith)

forwards-step :
    {F : Flow} (k : Option F.Mapper) (i : Input F) (o : Option ℕ) → forwards (step_calls k i o) ≡ 1
forwards-step none i none = refl
forwards-step none i (some n) = refl
forwards-step (some m) i none = refl
forwards-step (some m) i (some n) = refl

surveys-step :
    {F : Flow} (k : Option F.Mapper) (i : Input F) (o : Option ℕ)
    → surveys (step_calls k i o) ≡ due k (i ∷ [])
surveys-step none i none = refl
surveys-step none i (some n) = refl
surveys-step (some m) i none = refl
surveys-step (some m) i (some n) = refl

module _ {F : Flow} where
  -- What a run over some steps leaves, from a controller that has counted and kept some before.
  abbrev pub Counts : ℕ → ℕ → ℕ → ℕ → Result (Unit {0}) × Watch F × List (Call F.Density) → Type 0
  Counts c h n due_now made =
      (made.0 ≡ ok tt)
      × (made.1.command_id ≡ some (c + n))
      × (length made.1.density_over_time ≡ h + n)
      × (forwards made.2 ≡ n)
      × (surveys made.2 ≡ due_now)

  each-Counts :
      ((m : F.Mapper) → length (F.get_density_in_area m) ≡ 3)
      → (inputs : List (Input F)) (k : Option F.Mapper) (history : List (List F.Density))
        (a : F.Algorithm) (t : Option Target) (c : ℕ)
      → Counts c
          (length history)
          (length inputs)
          (due k inputs)
          (each handle_sim_step inputs (opened k history a t c))
  each-Counts three [] none history a t c = (refl, ap some (omega arith), omega arith, refl, refl)
  each-Counts three [] (some m) history a t c =
      (refl, ap some (omega arith), omega arith, refl, refl)
  each-Counts three (i ∷ inputs) k history a t c =
      let found = three_of (F.get_density_in_area (mapper_after k i)) (three (mapper_after k i)) in
      let kept = history ++ (F.get_density_in_area (mapper_after k i) ∷ []) in
      let advice = F.next_avoiding found.0 found.2 a in
      rw (handle_sim_step_munich k history a t c i found.0 found.1 found.2 [] found.3) (
        step
          (each handle_sim_step inputs
            (opened (some (mapper_after k i)) kept advice.1 (some (of_answer advice.0)) (c + 1)))
          advice.0
          (each-Counts three inputs (some (mapper_after k i)) kept advice.1
            (some (of_answer advice.0)) (c + 1)))
    where
      step :
          (made : Result (Unit {0}) × Watch F × List (Call F.Density)) (o : Option ℕ)
          → Counts
              (c + 1)
              (length (history ++ (F.get_density_in_area (mapper_after k i) ∷ [])))
              (length inputs)
              0
              made
          → Counts c
              (length history)
              (suc (length inputs))
              (due k (i ∷ inputs))
              (made.0, made.1, step_calls k i o ++ made.2)
      step made o (r, counted, kept, went, asked) = (
        r,
        counted ∙ ap some (omega arith),
        kept ∙ omega (arith, length-append history (F.get_density_in_area (mapper_after k i) ∷ [])),
        forwards-append (step_calls k i o) made.2 ∙ omega (arith, went, forwards-step k i o),
        surveys-append (step_calls k i o) made.2 ∙ surveyed k o asked,
      )
        where
          surveyed :
              (j : Option F.Mapper) (o' : Option ℕ)
              → surveys made.2 ≡ 0
              → surveys (step_calls j i o') + surveys made.2 ≡ due j (i ∷ inputs)
          surveyed none o' z = omega (arith, z, surveys-step none i o')
          surveyed (some m) o' z = omega (arith, z, surveys-step (some m) i o')

  -- If the map always gives a density for each of the three areas and the base class sets a command
  -- number, a session returns whatever arrives and is recommended: it has kept one list of densities and
  -- counted one command for each step, has told the time stepper to go on once for each, and has asked
  -- for the obstacles once if there was a step, else not at all.
  pub session-Counts :
      ((m : F.Mapper) → length (F.get_density_in_area m) ≡ 3)
      → (dir : Text) (inputs : List (Input F)) (c : ℕ)
      → Counts c 0
          (length inputs)
          (due {A = F.Mapper} none inputs)
          (session dir inputs (init F (some c)))
  unfolding session handle_init write_data init
  session-Counts three dir inputs c =
      go (each handle_sim_step inputs (opened none [] (F.avoid_congestion 31) none c))
        (each-Counts three inputs none [] (F.avoid_congestion 31) none c)
    where
      go :
          (made : Result (Unit {0}) × Watch F × List (Call F.Density))
          → Counts c 0 (length inputs) (due {A = F.Mapper} none inputs) made
          → Counts c 0
              (length inputs)
              (due {A = F.Mapper} none inputs)
              (after (after (handle_init dir (init F (some c))) (λ _ _. made)) (λ _. write_data))
      go (ok a, w, calls) (r, counted, kept, went, asked) = (
        refl,
        counted,
        kept,
        forwards-append calls (finish ∷ []) ∙ omega (arith, went),
        surveys-append calls (finish ∷ []) ∙ omega (arith, asked),
      )
      go (err raised, w, calls) (r, counted, kept, went, asked) = absurd (cc)
