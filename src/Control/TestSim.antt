-- ===== src/Control/TestSim.antt =====
-- testSim/control_1.py and control_2.py: two controllers named `ChangeTarget`, which send a route
-- choice at every step at which they are called.
use crownet.Prelude.{
  ℕ, zero, suc, ◌+◌, ◌≤◌, ◌≡◌, refl, ◌⊎◌, inl, inr, ltb→lt, Bool-cases, ltb, if◌then◌else◌, none,
  some, List, [], ◌∷◌, ◌++◌, text, decimal, length, get_elem?, ok, err, index_error, arith,
}
use crownet.Control.{
  circle, Stimulus, stimulus, action, Action, Call, init_control, send_control, next_call_at,
  forward_time, M, ◌>>=◌, ◌>>◌, return, call, reading, changing, indexed, each,
}

-- control_1.py. The redirection area and the target are constants of the object.
pub record Once : Type 0 where
  pub radius : ℕ
  pub current_target : ℕ

unfoldable pub once : Once
once = record { radius = 100; current_target = 3 }

unfoldable pub get_stimulus_info : Once → ℕ → Stimulus
get_stimulus_info o t = record {
  areas = circle o.radius;
  stimuli = text "use target [" ++ (decimal t ++ text "]");
  timeframe = none;
}

module _ {D : Type 0} where
  unfoldable pub handle_sim_step : M D Once (Unit {0})
  handle_sim_step = do
    o ← reading (λ o. o)
    call (send_control (stimulus (get_stimulus_info o 3)) (some (text "misc[0].app[0]")))
    call forward_time

  -- After what the base class does.
  unfoldable pub handle_init : M D Once (Unit {0}) → M D Once (Unit {0})
  handle_init base = base >> call init_control

-- control_2.py. Times are in tenths of a second.
pub record Timed : Type 0 where
  pub count : ℕ
  pub next_time : List ℕ
  pub next_cmd_id : ℕ

unfoldable pub timed : Timed
timed = record { count = 0; next_time = 250 ∷ 5000 ∷ []; next_cmd_id = 1 }

get_elem?-ge : {A : Type 0} (xs : List A) (i : ℕ) → length xs ≤ i → get_elem? xs i ≡ none
get_elem?-ge [] i h = refl
get_elem?-ge (x ∷ xs) zero h = absurd (omega arith)
get_elem?-ge (x ∷ xs) (suc i) h = get_elem?-ge xs i (omega arith)

abbrev pub route_choice : ℕ → ℕ → Action
route_choice sim_time command = record {
  time = sim_time + 4;
  radius = 100;
  target_ids = 3 ∷ [];
  command_id = command;
  stimulus_id = 201;
}

module _ {D : Type 0} where
  -- The last statement of the step: as it is written, the index lies behind the list.
  abbrev pub call_again : List ℕ → ℕ → M D Timed (Unit {0})
  call_again next_time count =
      if ltb (length next_time) count
      then (indexed (get_elem? next_time count) index_error >>= λ t. call (next_call_at t))
      else return tt

  -- `=+ 1` sets the number to 1.
  unfoldable pub handle_sim_step_timed : ℕ → M D Timed (Unit {0})
  handle_sim_step_timed sim_time = do
    changing (λ c. record c { count = c.count + 1 })
    command ← reading (λ c. c.next_cmd_id)
    changing (λ c. record c { next_cmd_id = 1 })
    call (
        send_control (action (text "RouteChoice") (route_choice sim_time command))
          (some (text "node[0].app[0]")))
    c ← reading (λ c. c)
    call_again c.next_time c.count

  abbrev pub command : ℕ → Call D
  command t =
      send_control (action (text "RouteChoice") (route_choice t 1)) (some (text "node[0].app[0]"))

  -- control_2.py is called at times t ∷ u ∷ v, and again: it sends the command with the same number 1
  -- each time, asks for no further call, and raises IndexError in the third step, whatever the times.
  pub timed_third_raises :
      (t u v : ℕ) (rest : List ℕ)
      → each handle_sim_step_timed (t ∷ u ∷ v ∷ rest) timed
        ≡ (err index_error, record timed { count = 3 }, command t ∷ command u ∷ command v ∷ [])
  unfolding handle_sim_step_timed timed
  timed_third_raises t u v rest = refl

  -- The two conditions never allow a call: where the test of the step holds, the index is out of range.
  pub call_again_never :
      (next_time : List ℕ) (count : ℕ) (c : Timed)
      → (call_again next_time count c ≡ (ok tt, c, []))
        ⊎ (call_again next_time count c ≡ (err index_error, c, []))
  call_again_never next_time count c = elim (Bool-cases (ltb (length next_time) count)) [
    | inl late ↦ inr (
        rw
          (late, get_elem?-ge next_time count (omega (arith, ltb→lt (length next_time) count late)))
          refl)
    | inr early ↦ inl (rw early refl)
  ]
