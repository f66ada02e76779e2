-- ===== src/Study/Resume.antt =====
-- study.py: an analysis that is started again does only what has no results yet.
use mathlib.Core.List.{append_assoc, append-nil}
use crownet.Prelude.{
  ◌≡◌, ◌∙◌, refl, sym, ap, inl, inr, true, false, or_false, Bool-cases, none, List, [], ◌∷◌, ◌++◌,
  map, filter, Text, list_eq, list_beq, nat_eq, beq_self, beq_sym, contains, IsSetList, has_key,
  has_key-put, put, ok, arith,
}
use crownet.Study.{Tools}
use crownet.Study.Memory.{analysed, Host}
use crownet.Study.Parts.{
  missing, AllPresent, paths, part-present, with_part, part-missing, collect-AllPresent,
}
use crownet.Study.Readable.{returns, reads_at, reads_at-put_read, AllSound, AllSound-put_read}
use crownet.Study.Main.{Tables, World, part_path, analysis, t_part_path, collect, grown}

module _ (T : Tools) (B : Tables T) (H : Host) (dir : Text) where
  open T use {Frame}
  open B use {Csv}

  -- Every analysis returns, and the table that it writes can be read back.
  abbrev pub AllDone : List Text → Type 0
  AllDone [] = Unit
  AllDone (config ∷ rest) =
      ((q : Frame) × (analysis T B H dir config ≡ ok (q, none))
        × (returns T B (B.read_csv (B.to_csv q)) ≡ true))
      × AllDone rest

  -- Results of another configuration do not change what is missing T B H dir.
  filter-missing-put :
      (config : Text) (csv : Csv) (files : List (Text × Csv)) (rest : List Text)
      → contains (paths T B H dir rest) (part_path T B H dir config) ≡ false
      → filter (missing T B H dir (put (part_path T B H dir config) csv files)) rest
        ≡ filter (missing T B H dir files) rest
  filter-missing-put config csv files [] h = refl
  filter-missing-put config csv files (c ∷ rest) h =
      let (other, later) =
        or_false (list_beq (part_path T B H dir config) (part_path T B H dir c))
          (contains (paths T B H dir rest) (part_path T B H dir config)) h in
      let swapped : list_beq (part_path T B H dir c) (part_path T B H dir config) ≡ false =
        apart (part_path T B H dir config) (part_path T B H dir c) other in
      rw
        (
          has_key-put (part_path T B H dir config) (part_path T B H dir c) csv files,
          swapped,
          filter-missing-put config csv files rest later,
        )
        refl
    where
      apart : (a b : Text) → list_beq a b ≡ false → list_beq b a ≡ false
      apart a b e = ground (arith, e, beq_sym b a)

  -- What `collect` makes of a world.
  abbrev pub Collected : List Text → Frame × Frame → World Csv → Type 0
  Collected cs results w =
      (last : Frame × Frame) × (w' : World Csv) × (collect T B H dir cs results w ≡ (ok last, w'))
      × (w'.machine.events
          ≡ w.machine.events ++ map analysed (filter (missing T B H dir w.files) cs))
      × AllPresent T B H dir cs w'.files
      × AllSound T B H dir cs w'.files
      × ((path : Text) → has_key path w.files ≡ true → has_key path w'.files ≡ true)
      × ((path : Text) → reads_at T B path w.files ≡ true → reads_at T B path w'.files ≡ true)

  pub collect_lem :
      (cs : List Text) (results : Frame × Frame) (w : World Csv)
      → IsSetList (paths T B H dir cs)
      → AllDone cs
      → AllSound T B H dir cs w.files
      → Collected cs results w
  unfolding collect
  collect_lem [] results w apart done sounds =
      (results, w, refl, sym (append-nil w.machine.events), tt, tt, (λ path h. h), λ path h. h)
  collect_lem (config ∷ rest) results w (new_path, apart) ((q, done, back), all_done)
        (sound, t_sound, sounds) =
      elim (Bool-cases (has_key (part_path T B H dir config) w.files)) [
        | inl there ↦
            let (found, same) = part-present T B H dir config w there sound t_sound in
            let (last, w', ran, noted, all, good, kept, kept_good) =
              collect_lem rest (grown T B H results found) w apart all_done sounds in
            (
              last,
              w',
              rw same ran,
              rw there noted,
              (kept (part_path T B H dir config) there, all),
              (
                kept_good (part_path T B H dir config) sound,
                kept_good (t_part_path T B H dir config) t_sound,
                good,
              ),
              kept,
              kept_good,
            )
        | inr absent ↦
            let (last, w', ran, noted, all, good, kept, kept_good) =
              collect_lem rest (grown T B H results (q, none)) (with_part T B H dir config q w)
                apart all_done
                (AllSound-put_read T B H dir (part_path T B H dir config) (B.to_csv q) rest w.files
                  back sounds) in
            (
              last,
              w',
              rw (part-missing T B H dir config q w absent done) ran,
              rw absent (
                  noted
                  ∙ append_assoc w.machine.events (analysed config ∷ []) (
                      map analysed
                        (filter (missing T B H dir (with_part T B H dir config q w).files) rest))
                  ∙ ap (λ cs. w.machine.events ++ (analysed config ∷ map analysed cs))
                      (filter-missing-put config (B.to_csv q) w.files rest new_path)),
              (kept (part_path T B H dir config) (here config q), all),
              (
                kept_good (part_path T B H dir config)
                    (good_still config q back (part_path T B H dir config) sound),
                kept_good (t_part_path T B H dir config)
                    (good_still config q back (t_part_path T B H dir config) t_sound),
                good,
              ),
              (λ path h. kept path (still config q path h)),
              λ path h. kept_good path (good_still config q back path h),
            )
      ]
    where
      here :
          (config : Text) (q : Frame)
          → has_key (part_path T B H dir config) (with_part T B H dir config q w).files ≡ true
      here config q =
          rw
            (
              has_key-put (part_path T B H dir config) (part_path T B H dir config) (B.to_csv q)
                  w.files,
              beq_self (part_path T B H dir config),
            )
            refl

      good_still :
          (config : Text) (q : Frame)
          → returns T B (B.read_csv (B.to_csv q)) ≡ true
          → (path : Text) → reads_at T B path w.files ≡ true
          → reads_at T B path (with_part T B H dir config q w).files ≡ true
      good_still config q back path h =
          reads_at-put_read T B (part_path T B H dir config) path (B.to_csv q) w.files back h

      still :
          (config : Text) (q : Frame) (path : Text)
          → has_key path w.files ≡ true
          → has_key path (with_part T B H dir config q w).files ≡ true
      still config q path h =
          rw (has_key-put (part_path T B H dir config) path (B.to_csv q) w.files, h) (ground arith)

  -- Where the result files of the configurations have different names, every analysis returns and its
  -- table can be read back, and so can the files of the configurations that are there: the loop returns
  -- and has analysed, in order, the configurations whose results were not there, and no other. Started
  -- again on what it leaves, it returns and neither analyses nor writes anything.
  pub collect-resumes :
      (cs : List Text) (results again : Frame × Frame) (w : World Csv)
      → IsSetList (paths T B H dir cs)
      → AllDone cs
      → AllSound T B H dir cs w.files
      → (last : Frame × Frame) × (w' : World Csv) × (next : Frame × Frame) × (collect T B H dir cs
            results w
          ≡ (ok last, w'))
        × (w'.machine.events
            ≡ w.machine.events ++ map analysed (filter (missing T B H dir w.files) cs))
        × (collect T B H dir cs again w' ≡ (ok next, w'))
  collect-resumes cs results again w apart done sounds =
      let (last, w', ran, noted, all, good, kept, kept_good) =
        collect_lem cs results w apart done sounds in
      let (next, same) = collect-AllPresent T B H dir cs again w' all good in
      (last, w', next, ran, noted, same)
