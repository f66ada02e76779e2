-- ===== src/Trace/Extract/Tests.antt =====
-- The theorems on the readers and on `extract_steps` at concrete inputs, with numbers for floats.
use crownet.Floats.{Floats}
use crownet.Prelude.{
  ℕ, zero, suc, arith, contains, get_elem?, ◌+◌, ◌-◌, true, false, ◌≡◌, refl, ltb, ◌==◌, none, some,
  List, [], ◌∷◌, Text, text, length, Result, ok, ◌>>=◌, nat_eq, lookup, decimal,
}
use crownet.Trace.{TracePoint, Trace, new_trace}
use crownet.Trace.Read.{Line, comment, id_map, skipped, values, iterate, BmRow, row, classify}
use crownet.Trace.Seek.{BmSumoStep, get_step_at}
use crownet.Trace.Extract.{TimeIdMapping, TimeStep, extract_steps, run, collect, create_steps}
use crownet.Trace.Report.{steps_csv, write_steps, describe_fast_steps}
use crownet.Trace.Extract.Copies.{copies}
use crownet.Trace.Update.{Steps, dict_by_id, RouteFiles, update_persons, update_route}
use crownet.Trace.Update.Extracted.{extract_steps-update_route}
use crownet.Trace.Extract.Entries.{steps_for, with_traces}
use crownet.Trace.Extract.Steps.{trace_for, extract_steps-copies}

abbrev naturals : Floats
naturals = record {
  F = ℕ;
  zero = 0;
  lt = ltb;
  eq = ◌==◌;
  sub = λ a b. a - b;
  div = λ a b. a;
  abs = λ a. a;
  norm = λ a b. a + b;
  parse = λ s. some (length s);
}

abbrev five_lines : List (Line ℕ)
five_lines =
    comment
    ∷ values (1 ∷ 2 ∷ 3 ∷ [])
    ∷ skipped
    ∷ id_map (7 ∷ 8 ∷ 9 ∷ [])
    ∷ values (4 ∷ 5 ∷ 6 ∷ [])
    ∷ []

abbrev whole : ℕ → List ℕ → Result (List ℕ)
whole n vs = ok vs

numbers_of_rows :
    iterate whole 0 0 none five_lines
    ≡ (ok ((0, 1 ∷ 2 ∷ 3 ∷ []) ∷ (2, 4 ∷ 5 ∷ 6 ∷ []) ∷ []), some (7 ∷ 8 ∷ 9 ∷ []))
unfolding iterate
numbers_of_rows = refl

kinds_of_lines :
    (classify naturals (λ s. some (length s)) (text "# Sumo id map: 12 345") ≡ id_map (2 ∷ 3 ∷ []))
    × (classify naturals (λ s. some (length s)) (text "# other") ≡ comment)
    × (classify naturals (λ s. some (length s)) (text "1 22 333") ≡ values (1 ∷ 2 ∷ 3 ∷ []))
    × (classify naturals (λ s. some (length s)) (text "1 22") ≡ skipped)
unfolding classify
kinds_of_lines = (refl, refl, refl, refl)

rows_of_trace :
    row naturals 4 (1 ∷ 2 ∷ 3 ∷ 2 ∷ 5 ∷ 7 ∷ [])
    ≡ ok (
        record { id = 4; time = 1; x = 2; y = 3; dist = 0; speed = 0 }
        ∷ record { id = 4; time = 2; x = 5; y = 7; dist = 7; speed = 7 }
        ∷ [])
unfolding row
rows_of_trace = refl

abbrev person : ℕ → Text → TracePoint ℕ
person k edge = record {
  angle = 0;
  edge = edge;
  id = k;
  pos = 0;
  slope = 0;
  speed = 0;
  x = 0;
  y = 0;
  time = 0;
}

abbrev output : List (TimeStep ℕ)
output =
    record { time = 1; persons = person 7 (text "a") ∷ person 8 (text "c") ∷ [] }
    ∷ record { time = 2; persons = person 7 (text "b") ∷ [] }
    ∷ []

abbrev far : ℕ → BmRow ℕ
far t = record { id = 0; time = t; x = 0; y = 0; dist = 9; speed = 9 }

abbrev far_records : List (TimeIdMapping ℕ)
far_records =
    record { time = 1; sumo_id = 7; bm_id = 0 } ∷ record { time = 2; sumo_id = 7; bm_id = 0 } ∷ []

-- The id of SUMO of the only pedestrian.
first_only : (b : ℕ) → contains (0 ∷ 0 ∷ []) b ≡ true → get_elem? {A = ℕ} (7 ∷ []) b ≡ some 7
first_only zero h = refl
first_only (suc b) h = absurd (ground (arith, h))

-- A pedestrian with two violations: its two points are listed twice.
extract_steps-copies_example :
    (traces : List (ℕ × Trace ℕ)) × (extract_steps naturals
        (λ rows. rows)
        output
        (far 1 ∷ far 2 ∷ [])
        (7 ∷ [])
      ≡ (steps_for naturals far_records traces >>= with_traces naturals traces))
    × ((k : ℕ)
        → lookup k traces ≡ trace_for naturals output far_records k (contains (7 ∷ 7 ∷ []) k))
extract_steps-copies_example =
    extract_steps-copies naturals (λ rows. rows) output (far 1 ∷ far 2 ∷ []) (7 ∷ []) (λ b. 7)
      first_only (λ b. refl)

-- The file lists the ids and a trace that jumps in its second point.
run_of_two :
    run naturals
      (λ a. false)
      (λ w. some 7)
      (λ rows. rows)
      2
      5
      (text "# Sumo id map: 7" ∷ text "1 22 333 22 666666666 333" ∷ [])
      output
      (some 3)
    ≡ ok (
      (
        record {
          bm_id = 0;
          sumo_id = 7;
          time = 2;
          dist = 0;
          speed = 0;
          edge_1 = text "a";
          edge_2 = text "b";
        }
            ∷ [],
        (
          7,
          new_trace naturals (
              copies 1 (
                record (person 7 (text "a")) { time = 1 }
                ∷ record (person 7 (text "b")) { time = 2 }
                ∷ [])),
        )
            ∷ [],
      ),
      3,
    )
unfolding run classify iterate row collect create_steps get_step_at new_trace
run_of_two = refl

abbrev jump : BmSumoStep ℕ
jump = record {
  bm_id = 0;
  sumo_id = 7;
  time = 2;
  dist = 9;
  speed = 9;
  edge_1 = text "a";
  edge_2 = text "b";
}

text_of_steps :
    steps_csv (λ t. decimal t) (some (jump ∷ [], 3) ∷ [])
    ≡ text "bm_id;sumo_id;time;dist;speed;edge_1;edge_2;run\n0;7;2;9;9;a;b\n;3\n"
unfolding steps_csv write_steps decimal
text_of_steps = refl

counts_of_steps :
    describe_fast_steps (λ t. decimal t) (jump ∷ jump ∷ [])
    ≡ record { same = 0; diff = 2; walking = 0; edge_counts = (text "a->b", 2) ∷ [] }
unfolding describe_fast_steps
counts_of_steps = refl

abbrev step_into_b : BmSumoStep ℕ
step_into_b = record {
  bm_id = 0;
  sumo_id = 7;
  time = 2;
  dist = 0;
  speed = 0;
  edge_1 = text "a";
  edge_2 = text "b";
}

abbrev trace_of_7 : Trace ℕ
trace_of_7 =
    new_trace naturals
      (record (person 7 (text "a")) { time = 1 } ∷ record (person 7 (text "b")) { time = 2 } ∷ [])

one_step :
    extract_steps naturals (λ rows. rows) output (far 2 ∷ []) (7 ∷ [])
    ≡ ok (step_into_b ∷ [], (7, trace_of_7) ∷ [])
unfolding extract_steps collect create_steps get_step_at new_trace
one_step = refl

abbrev route_file : RouteFiles
route_file = record {
  route = record { id = text "7"; walk = some (text "a" ∷ text "b" ∷ text "c" ∷ []) } ∷ [];
  backup = none;
}

extract_steps-update_route_example :
    (d : Steps naturals) × (dict_by_id naturals (step_into_b ∷ []) true ≡ ok d)
    × (update_route naturals d ((7, trace_of_7) ∷ []) route_file ≡ (
        update_persons naturals d ((7, trace_of_7) ∷ []) route_file.route >>= λ after.
        ok (record { route = after; backup = some route_file.route })))
extract_steps-update_route_example =
    extract_steps-update_route naturals (λ rows. rows) output (far 2 ∷ []) (7 ∷ [])
      (step_into_b ∷ []) ((7, trace_of_7) ∷ []) route_file (λ b. refl) one_step refl
