-- ===== src/Control/PingPong.antt =====
-- guiding_crowds_test/control.py: `PingPong`, which sends every pedestrian to one of two targets. What
-- it prints is left out.
use mathlib.Core.List.{append_assoc}
use crownet.Prelude.{ℕ, ◌≡◌, refl, List, [], ◌∷◌, ◌++◌, map, decimal, ok}
use crownet.Control.{
  Target, of_answer, shown, Call, get_id_list, set_target_list, forward_time, M, ◌>>=◌, ◌>>◌, call,
  reading, changing, each, Flow,
}

-- The controller is its algorithm.
abbrev pub PingPong : Flow → Type 0
PingPong F = F.Algorithm

pub record Input : Type 0 where
  pub sim_time : ℕ
  -- `get_id_list`: the numbers of the pedestrians.
  pub id_list : List ℕ

unfoldable pub init : (F : Flow) → PingPong F
init F = F.alternate_targets (2 ∷ 3 ∷ [])

-- The body of the loop over the pedestrians.
abbrev pub send_to : {D S : Type 0} → Target → ℕ → M D S (Unit {0})
send_to t id = call (set_target_list (decimal id) (shown t ∷ []))

unfoldable pub handle_sim_step : (F : Flow) → Input → M F.Density (PingPong F) (Unit {0})
handle_sim_step F i = do
  algorithm ← reading (λ a. a)
  changing (λ a. (F.next_of algorithm).1)
  call get_id_list
  each (send_to (of_answer (F.next_of algorithm).0)) i.id_list
  call forward_time

-- The calls that give one target to some pedestrians, each once and in their order.
abbrev pub given : {D : Type 0} → Target → List ℕ → List (Call D)
given t = map (λ id. set_target_list (decimal id) (shown t ∷ []))

-- What a run should do: the algorithm is asked once for each step, and its answer is the target of
-- all pedestrians that are there in the step.
abbrev pub plan : (F : Flow) → F.Algorithm → List Input → List (Call F.Density)
plan F a [] = []
plan F a (i ∷ inputs) =
    get_id_list
    ∷ (given (of_answer (F.next_of a).0) i.id_list
        ++ (forward_time ∷ plan F (F.next_of a).1 inputs))

abbrev pub asked : (F : Flow) → F.Algorithm → List Input → F.Algorithm
asked F a [] = a
asked F a (i ∷ inputs) = asked F (F.next_of a).1 inputs

each-send_to :
    {D S : Type 0} (t : Target) (ids : List ℕ) (s : S)
    → each {D = D} (send_to t) ids s ≡ (ok tt, s, given t ids)
each-send_to {D} t [] s = refl
each-send_to {D} t (id ∷ ids) s = rw (each-send_to {D = D} t ids s)

step_lem :
    (F : Flow) (i : Input) (a : F.Algorithm)
    → handle_sim_step F i a ≡ (
      ok tt,
      (F.next_of a).1,
      get_id_list ∷ (given (of_answer (F.next_of a).0) i.id_list ++ (forward_time ∷ [])),
    )
unfolding handle_sim_step
step_lem F i a = rw (each-send_to (of_answer (F.next_of a).0) i.id_list (F.next_of a).1)

-- A run over any steps returns and makes exactly the planned calls: in each step every pedestrian
-- listed gets the one target that the algorithm gave for the step, once and in order, before the time
-- stepper goes on; pedestrians that are not listed get none.
pub run-plan :
    (F : Flow) (inputs : List Input) (a : F.Algorithm)
    → each (handle_sim_step F) inputs a ≡ (ok tt, asked F a inputs, plan F a inputs)
run-plan F [] a = refl
run-plan F (i ∷ inputs) a =
    rw (step_lem F i a, run-plan F inputs (F.next_of a).1) (simp append_assoc)
