-- ===== src/Study/Calls.antt =====
-- study.py: `main` without the file of results, and with it on either answer to its question.
use crownet.Prelude.{
  ℕ, ◌≡◌, refl, Bool, true, false, not, ◌&&◌, ◌||◌, Bool-cases, inl, inr, some, List, [], ◌∷◌, ◌++◌,
  Text, text, list_eq, list_beq, list_beq_iff, nat_eq, beq_self, has_text, has_key, lookup, put,
  Result, ok, err, ◌>>=◌, arith,
}
use crownet.States.{after, return}
use crownet.SumoRuns.{join_path}
use crownet.Study.{Tools}
use crownet.Study.Memory.{
  Event, asked, removed, Host, Machine, get_results_dir, run_parameter_study, sumo, vadere,
}
use crownet.Study.Main.{Tables, World, par_var, run_studies, collect, main_on, without}
use crownet.Study.Paths.{slashed, join_path-slashed, list_beq-append}

abbrev pub qoi_path : Text → Text
qoi_path base = join_path base (text "qoi_results.csv")

abbrev pub qoi_t_path : Text → Text
qoi_t_path base = join_path base (text "qoi_results_t.csv")

pub results_differ : (base : Text) → list_beq (qoi_path base) (qoi_t_path base) ≡ false
results_differ base =
    rw
      (
        join_path-slashed base (text "qoi_results.csv"),
        join_path-slashed base (text "qoi_results_t.csv"),
        list_beq-append (slashed base) (text "qoi_results.csv") (text "qoi_results_t.csv"),
      )
      refl

pub results_differ_back : (base : Text) → list_beq (qoi_t_path base) (qoi_path base) ≡ false
results_differ_back base =
    rw
      (
        join_path-slashed base (text "qoi_results.csv"),
        join_path-slashed base (text "qoi_results_t.csv"),
        list_beq-append (slashed base) (text "qoi_results_t.csv") (text "qoi_results.csv"),
      )
      refl

-- The answer to the prompt is yes.
abbrev pub confirmed : Host → Bool
confirmed H = list_beq H.confirmation (text "y") || list_beq H.confirmation (text "yes")

-- Each configuration is one of SUMO or of Vadere.
abbrev pub AllSimulated : List Text → Type 0
AllSimulated [] = Unit
AllSimulated (c ∷ cs) =
    ((has_text (text "sumo") c || has_text (text "vadere") c) ≡ true) × AllSimulated cs

-- The two files of results, read one after the other.
abbrev pub read_both : (T : Tools) (B : Tables T) → B.Csv → B.Csv → Result (T.Frame × T.Frame)
read_both T B c c_t = B.read_csv c >>= λ qoi. B.read_csv c_t >>= λ qoi_t. ok (qoi, qoi_t)

module _ (T : Tools) (B : Tables T) (H : Host) where
  open T use {Frame}
  open B use {Csv}

  pub has_key-without :
      (k j : Text) (d : List (Text × Csv))
      → has_key j (without T B H k d) ≡ (not (list_beq k j) && has_key j d)
  has_key-without k j [] = ground arith
  has_key-without k j ((n, csv) ∷ d) =
      ground (arith, has_key-without k j d, list_beq_iff k n, list_beq_iff j n, list_beq_iff k j)

  -- The studies leave the files as they are.
  pub run_studies_lem :
      (base : Text) (hundredths : ℕ → Text) (cs : List Text) (w : World Csv)
      → AllSimulated cs
      → (m : Machine) × (run_studies T B H base hundredths cs w ≡ (ok tt, record w { machine = m }))
  unfolding run_studies
  run_studies_lem base hundredths [] w h = (w.machine, refl)
  run_studies_lem base hundredths (c ∷ cs) w (h, all) =
      elim (Bool-cases (has_text (text "sumo") c)) [
        | inl on_sumo ↦
            let (m, done) =
              run_studies_lem base hundredths cs
                (record w {
                  machine = run_parameter_study H base sumo c (par_var hundredths c) w.machine;
                })
                all in
            (m, rw on_sumo done)
        | inr other ↦
            let (m, done) =
              run_studies_lem base hundredths cs
                (record w {
                  machine = run_parameter_study H base vadere c (par_var hundredths c) w.machine;
                })
                all in
            (
              m,
              rw (other, second (has_text (text "sumo") c) (has_text (text "vadere") c) h other)
                  done,
            )
      ]
    where
      second : (a b : Bool) → (a || b) ≡ true → a ≡ false → b ≡ true
      second a b h e = ground (arith, h, e)

  -- Both files of results written.
  abbrev pub with_results : Text → Frame × Frame → World Csv → World Csv
  with_results base (qoi, qoi_t) w = record w {
    files = put (qoi_t_path base) (B.to_csv qoi_t) (put (qoi_path base) (B.to_csv qoi) w.files);
  }

  abbrev noted : World Csv → Event → Machine
  noted w e = record w.machine { events = w.machine.events ++ (e ∷ []) }

  abbrev pub asked_for : Text → World Csv → World Csv
  asked_for base w = record w { machine = noted w (asked (qoi_path base)) }

  abbrev deleted : Text → World Csv → World Csv
  deleted path w = record { machine = noted w (removed path); files = without T B H path w.files }

  abbrev pub cleared : Text → World Csv → World Csv
  cleared base w = deleted (qoi_t_path base) (deleted (qoi_path base) (asked_for base w))

  module _ (base : Text) (hundredths : ℕ → Text) (cs : List Text) (w s : World Csv)
      (ran : run_studies T B H base hundredths cs w ≡ (ok tt, s)) where
    pub main_on_first :
        (last : Frame × Frame) (w1 : World Csv)
        → has_key (qoi_path base) s.files ≡ false
        → collect T B H (get_results_dir H base) cs (T.empty, T.empty) s ≡ (ok last, w1)
        → main_on T B H cs base hundredths w ≡ (ok last, with_results base last w1)
    unfolding main_on
    main_on_first last w1 new collected = rw (ran, new, new, collected) refl

    pub main_on_kept :
        (c c_t : Csv)
        → lookup (qoi_path base) s.files ≡ some c
        → lookup (qoi_t_path base) s.files ≡ some c_t
        → confirmed H ≡ false
        → main_on T B H cs base hundredths w ≡ (read_both T B c c_t, asked_for base s)
    unfolding main_on
    main_on_kept c c_t there there_t declined = first (B.read_csv c) refl
      where
        kept : has_key (qoi_path base) s.files ≡ true
        kept = rw (has_key, there) refl

        second :
            (qoi : Frame) (r : Result Frame)
            → after {B = Frame × Frame} (r, asked_for base s) (λ qoi_t. return (qoi, qoi_t))
              ≡ ((r >>= λ qoi_t. ok (qoi, qoi_t)), asked_for base s)
        second qoi (ok qoi_t) = refl
        second qoi (err raised) = refl

        first :
            (r : Result Frame)
            → B.read_csv c ≡ r
            → main_on T B H cs base hundredths w ≡ (read_both T B c c_t, asked_for base s)
        first (ok qoi) e =
            rw (ran, kept, declined, kept, there, e, there_t) (second qoi (B.read_csv c_t))
        first (err raised) e = rw (ran, kept, declined, kept, there, e) refl

    pub main_on-confirmed :
        (next : Frame × Frame)
        → has_key (qoi_path base) s.files ≡ true
        → has_key (qoi_t_path base) s.files ≡ true
        → confirmed H ≡ true
        → collect T B H (get_results_dir H base) cs (T.empty, T.empty) (cleared base s)
          ≡ (ok next, cleared base s)
        → main_on T B H cs base hundredths w ≡ (ok next, with_results base next (cleared base s))
    unfolding main_on
    main_on-confirmed next there there_t accepted collected =
        let still : has_key (qoi_t_path base) (without T B H (qoi_path base) s.files) ≡ true =
          rw
            (
              has_key-without (qoi_path base) (qoi_t_path base) s.files,
              results_differ base,
              there_t,
            )
            refl in
        let gone : has_key (qoi_path base) (cleared base s).files ≡ false =
          rw
            (
              has_key-without (qoi_t_path base) (qoi_path base)
                  (without T B H (qoi_path base) s.files),
              has_key-without (qoi_path base) (qoi_path base) s.files,
              beq_self (qoi_path base),
              results_differ_back base,
            )
            refl in
        rw (ran, there, accepted, there, still, gone, collected) refl
