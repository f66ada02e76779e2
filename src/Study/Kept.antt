-- ===== src/Study/Kept.antt =====
-- study.py: the files of the configurations while the results of all are written and removed.
use crownet.Prelude.{
  ◌≡◌, refl, false, some, List, [], ◌∷◌, Text, list_eq, list_beq, nat_eq, or_false, beq_self,
  contains, has_key-put, lookup, put, lookup-put, arith,
}
use crownet.Study.{Tools}
use crownet.Study.Memory.{Host}
use crownet.Study.Main.{Tables, World, configs, without, part_path}
use crownet.Study.Parts.{AllPresent, paths}
use crownet.Study.Readable.{AllSound, AllSound-put, AllSound-without}
use crownet.Study.Ends.{results-IsApart}
use crownet.Study.Calls.{
  qoi_path, qoi_t_path, results_differ, has_key-without, with_results, cleared,
}

module _ (T : Tools) (B : Tables T) (H : Host) where
  open T use {Frame}
  open B use {Csv}

  AllPresent-put :
      (dir k : Text) (csv : Csv) (cs : List Text) (files : List (Text × Csv))
      → AllPresent T B H dir cs files
      → AllPresent T B H dir cs (put k csv files)
  AllPresent-put dir k csv [] files all = tt
  AllPresent-put dir k csv (c ∷ cs) files (there, all) = (
    rw (has_key-put k (part_path T B H dir c) csv files, there) (ground arith),
    AllPresent-put dir k csv cs files all,
  )

  AllPresent-without :
      (dir k : Text) (cs : List Text) (files : List (Text × Csv))
      → contains (paths T B H dir cs) k ≡ false
      → AllPresent T B H dir cs files
      → AllPresent T B H dir cs (without T B H k files)
  AllPresent-without dir k [] files apart all = tt
  AllPresent-without dir k (c ∷ cs) files apart (there, all) =
      let (other, later) =
        or_false (list_beq k (part_path T B H dir c)) (contains (paths T B H dir cs) k) apart in
      (
        rw (has_key-without T B H k (part_path T B H dir c) files, other, there) refl,
        AllPresent-without dir k cs files later all,
      )

  -- The files of the configurations are there and can be read.
  abbrev pub Kept : Text → List (Text × Csv) → Type 0
  Kept dir files = AllPresent T B H dir configs files × AllSound T B H dir configs files

  -- They are when the results of all are removed,
  pub cleared-Kept :
      (dir base : Text) (s : World Csv) → Kept dir s.files → Kept dir (cleared T B H base s).files
  cleared-Kept dir base s (all, sounds) =
      let ((apart, t_apart), (apart_t, t_apart_t)) = results-IsApart base dir in
      (
        AllPresent-without dir (qoi_t_path base) configs (without T B H (qoi_path base) s.files)
            apart_t (AllPresent-without dir (qoi_path base) configs s.files apart all),
        AllSound-without T B H dir (qoi_t_path base) configs (without T B H (qoi_path base) s.files)
            (AllSound-without T B H dir (qoi_path base) configs s.files sounds),
      )

  -- and when they are written.
  pub with_results-Kept :
      (dir base : Text) (last : Frame × Frame) (w : World Csv)
      → Kept dir w.files
      → Kept dir (with_results T B H base last w).files
  with_results-Kept dir base (qoi, qoi_t) w (all, sounds) =
      let ((apart, t_apart), (apart_t, t_apart_t)) = results-IsApart base dir in
      (
        AllPresent-put dir (qoi_t_path base) (B.to_csv qoi_t) configs
            (put (qoi_path base) (B.to_csv qoi) w.files)
            (AllPresent-put dir (qoi_path base) (B.to_csv qoi) configs w.files all),
        AllSound-put T B H dir (qoi_t_path base) (B.to_csv qoi_t) configs
            (put (qoi_path base) (B.to_csv qoi) w.files) apart_t t_apart_t
            (AllSound-put T B H dir (qoi_path base) (B.to_csv qoi) configs w.files apart t_apart
              sounds),
      )

  pub with_results-found :
      (base : Text) (last : Frame × Frame) (w : World Csv)
      → (lookup (qoi_path base) (with_results T B H base last w).files ≡ some (B.to_csv last.0))
        × (lookup (qoi_t_path base) (with_results T B H base last w).files ≡ some (B.to_csv last.1))
  with_results-found base (qoi, qoi_t) w = (
    rw
        (
          lookup-put (qoi_t_path base) (qoi_path base) (B.to_csv qoi_t)
              (put (qoi_path base) (B.to_csv qoi) w.files),
          results_differ base,
          lookup-put (qoi_path base) (qoi_path base) (B.to_csv qoi) w.files,
          beq_self (qoi_path base),
        )
        refl,
    rw
        (
          lookup-put (qoi_t_path base) (qoi_t_path base) (B.to_csv qoi_t)
              (put (qoi_path base) (B.to_csv qoi) w.files),
          beq_self (qoi_t_path base),
        )
        refl,
  )

module _ (T : Tools) (B : Tables T) where
  open B use {Csv}

  -- Neither depends on the rest of the host.
  pub AllPresent-host :
      (H H' : Host) (dir : Text) (cs : List Text) (files : List (Text × Csv))
      → AllPresent T B H dir cs files
      → AllPresent T B H' dir cs files
  AllPresent-host H H' dir [] files all = tt
  AllPresent-host H H' dir (c ∷ cs) files (there, all) =
      (there, AllPresent-host H H' dir cs files all)

  pub AllSound-host :
      (H H' : Host) (dir : Text) (cs : List Text) (files : List (Text × Csv))
      → AllSound T B H dir cs files
      → AllSound T B H' dir cs files
  AllSound-host H H' dir [] files all = tt
  AllSound-host H H' dir (c ∷ cs) files (sound, t_sound, all) =
      (sound, t_sound, AllSound-host H H' dir cs files all)
