-- ===== src/Study/Restart.antt =====
-- study.py: `main` started again after it has written its results.
use mathlib.Core.List.{append_assoc}
use crownet.Prelude.{
  ℕ, ◌≡◌, ◌⊎◌, refl, true, false, Bool-cases, inl, inr, some, [], ◌∷◌, ◌++◌, Text, list_eq, nat_eq,
  has_key, lookup, Result, ok,
}
use crownet.Study.{Tools}
use crownet.Study.Memory.{asked, removed, Host, get_results_dir}
use crownet.Study.Main.{Tables, World, configs, run_studies, collect, main}
use crownet.Study.Parts.{collect-AllPresent}
use crownet.Study.Resume.{AllDone, collect_lem}
use crownet.Study.Paths.{configs-IsSetList}
use crownet.Study.Readable.{AllSound}
use crownet.Study.Calls.{
  qoi_path, qoi_t_path, confirmed, AllSimulated, run_studies_lem, with_results, asked_for,
  read_both, cleared, main_on_first, main_on_kept, main_on-confirmed,
}
use crownet.Study.Kept.{
  Kept, cleared-Kept, with_results-Kept, with_results-found, AllPresent-host, AllSound-host,
}

simulated : AllSimulated configs
simulated = (refl, (refl, (refl, (refl, (refl, (refl, (refl, (refl, (refl, (refl, tt))))))))))

module _ (T : Tools) (B : Tables T) (base : Text) (hundredths : ℕ → Text) where
  open T use {Frame}
  open B use {Csv}

  -- The first call of `main` on a world without the file of results.
  main_fresh :
      (H : Host) (w : World Csv)
      → has_key (qoi_path base) w.files ≡ false
      → AllDone T B H (get_results_dir H base) configs
      → AllSound T B H (get_results_dir H base) configs w.files
      → (last : Frame × Frame) × (w1 : World Csv) × (main T B H base hundredths w
          ≡ (ok last, with_results T B H base last w1))
        × Kept T B H (get_results_dir H base) w1.files
  unfolding main
  main_fresh H w new done sounds =
      let (m, ran) = run_studies_lem T B H base hundredths configs w simulated in
      let (last, w1, collected, noted_all, all, good, kept, kept_good) =
        collect_lem T B H (get_results_dir H base) configs (T.empty, T.empty)
          (record w { machine = m }) (configs-IsSetList T B H (get_results_dir H base)) done
          sounds in
      (
        last,
        w1,
        main_on_first T B H base hundredths configs w (record w { machine = m }) ran last w1 new
            collected,
        (all, good),
      )

  -- What a second call gives: what is read from the two files, or, when they are deleted, the results
  -- of the files of each configuration.
  abbrev pub Again : Host → Frame × Frame → World Csv → Result (Frame × Frame) → World Csv → Type 0
  Again H last s r w =
      ((confirmed H ≡ false)
        × (r ≡ read_both T B (B.to_csv last.0) (B.to_csv last.1))
        × (w ≡ asked_for T B H base s))
      ⊎ ((confirmed H ≡ true)
          × ((next : Frame × Frame) × (r ≡ ok next)
              × (collect T B H (get_results_dir H base) configs (T.empty, T.empty)
                    (cleared T B H base s)
                  ≡ (ok next, cleared T B H base s)))
          × (w.machine.events
              ≡ s.machine.events
                ++ (asked (qoi_path base)
                    ∷ removed (qoi_path base)
                    ∷ removed (qoi_t_path base)
                    ∷ [])))

  main-Again :
      (H : Host) (last : Frame × Frame) (w s : World Csv)
      → lookup (qoi_path base) s.files ≡ some (B.to_csv last.0)
      → lookup (qoi_t_path base) s.files ≡ some (B.to_csv last.1)
      → Kept T B H (get_results_dir H base) s.files
      → run_studies T B H base hundredths configs w ≡ (ok tt, s)
      → (r : Result (Frame × Frame)) × (w'' : World Csv) × (main T B H base hundredths w ≡ (r, w''))
        × Again H last s r w''
  unfolding main
  main-Again H last w s there there_t kept ran = elim (Bool-cases (confirmed H)) [
    | inl accepted ↦
        let (all, good) = cleared-Kept T B H (get_results_dir H base) base s kept in
        let (next, collected) =
          collect-AllPresent T B H (get_results_dir H base) configs (T.empty, T.empty)
            (cleared T B H base s) all good in
        (
          ok next,
          with_results T B H base next (cleared T B H base s),
          main_on-confirmed T B H base hundredths configs w s ran next (rw (has_key, there) refl)
              (rw (has_key, there_t) refl) accepted collected,
          inr (
            accepted,
            (next, refl, collected),
            rw
                (
                  append_assoc s.machine.events (asked (qoi_path base) ∷ [])
                      (removed (qoi_path base) ∷ []),
                  append_assoc s.machine.events
                      (asked (qoi_path base) ∷ removed (qoi_path base) ∷ [])
                      (removed (qoi_t_path base) ∷ []),
                )
                refl,
          ),
        )
    | inr declined ↦ (
      read_both T B (B.to_csv last.0) (B.to_csv last.1),
      asked_for T B H base s,
      main_on_kept T B H base hundredths configs w s ran (B.to_csv last.0) (B.to_csv last.1) there
          there_t declined,
      inl (declined, refl, refl),
    )
  ]

  -- Where there is no file with the results of all, every analysis returns and its table can be read
  -- back, and so can the files of the configurations that are there, with two hosts of the same
  -- directory of results: `main` returns and writes its results. Called again on the second host, if
  -- the answer to its question is not yes, it gives what it reads from the two files, the exception
  -- included, and changes nothing after its studies. If the answer is yes, it returns: it deletes both
  -- files and puts the results together from the files of each configuration, and no configuration is
  -- analysed again.
  pub main-restarts :
      (H H' : Host) (w : World Csv)
      → get_results_dir H' base ≡ get_results_dir H base
      → has_key (qoi_path base) w.files ≡ false
      → AllDone T B H (get_results_dir H base) configs
      → AllSound T B H (get_results_dir H base) configs w.files
      → (last : Frame × Frame) × (w' : World Csv) × (s : World Csv) × (r : Result (Frame × Frame))
        × (w'' : World Csv) × (main T B H base hundredths w ≡ (ok last, w'))
        × (run_studies T B H' base hundredths configs w' ≡ (ok tt, s))
        × (main T B H' base hundredths w' ≡ (r, w''))
        × Again H' last s r w''
  main-restarts H H' w same new done sounds =
      let (last, w1, first, kept) = main_fresh H w new done sounds in
      let (there, there_t) = with_results-found T B H base last w1 in
      let (m, ran) =
        run_studies_lem T B H' base hundredths configs (with_results T B H base last w1)
          simulated in
      let s : World Csv = record (with_results T B H base last w1) { machine = m } in
      let (all, good) = with_results-Kept T B H (get_results_dir H base) base last w1 kept in
      let present : Kept T B H' (get_results_dir H' base) s.files = rw same (
        AllPresent-host T B H H' (get_results_dir H base) configs s.files all,
        AllSound-host T B H H' (get_results_dir H base) configs s.files good,
      ) in
      let (r, w'', again, answer) =
        main-Again H' last (with_results T B H base last w1) s there there_t present ran in
      (last, with_results T B H base last w1, s, r, w'', first, ran, again, answer)
