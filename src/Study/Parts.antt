-- ===== src/Study/Parts.antt =====
-- study.py: the results of one configuration, and a loop that finds them all.
use crownet.Prelude.{
  ◌≡◌, refl, inl, inr, Bool, true, false, not, Bool-cases, Option, none, some, List, [], ◌∷◌, ◌++◌,
  map, Text, list_eq, nat_eq, has_key, has_key-some, put, ok,
}
use crownet.Study.{Tools}
use crownet.Study.Memory.{analysed, Host}
use crownet.Study.Readable.{reads_at, reads_at-lookup, AllSound}
use crownet.Study.Main.{Tables, World, part_path, analysis, part, t_part_path, collect, grown}

module _ (T : Tools) (B : Tables T) (H : Host) (dir : Text) where
  open T use {Frame}
  open B use {Csv}

  -- The results of a configuration are not there.
  abbrev pub missing : List (Text × Csv) → Text → Bool
  missing files config = not (has_key (part_path T B H dir config) files)

  -- There are results of every configuration.
  abbrev pub AllPresent : List Text → List (Text × Csv) → Type 0
  AllPresent [] files = Unit
  AllPresent (config ∷ rest) files =
      (has_key (part_path T B H dir config) files ≡ true) × AllPresent rest files

  abbrev pub paths : List Text → List Text
  paths cs = map (part_path T B H dir) cs

  pub part-present :
      (config : Text) (w : World Csv)
      → has_key (part_path T B H dir config) w.files ≡ true
      → reads_at T B (part_path T B H dir config) w.files ≡ true
      → reads_at T B (t_part_path T B H dir config) w.files ≡ true
      → (found : Frame × Option Frame) × (part T B H dir config w ≡ (ok found, w))
  part-present config w there sound t_sound =
      let (csv, kept) = has_key-some (part_path T B H dir config) w.files there in
      let (q, read) = reads_at-lookup T B (part_path T B H dir config) csv w.files kept sound in
      elim (Bool-cases (has_key (t_part_path T B H dir config) w.files)) [
        | inl timed ↦
            let (t_csv, t_kept) = has_key-some (t_part_path T B H dir config) w.files timed in
            let (q_t, t_read) =
              reads_at-lookup T B (t_part_path T B H dir config) t_csv w.files t_kept t_sound in
            ((q, some q_t), rw (there, timed, kept, read, t_kept, t_read) refl)
        | inr untimed ↦ ((q, none), rw (there, untimed, kept, read) refl)
      ]

  -- The world after an analysis.
  abbrev pub with_part : Text → Frame → World Csv → World Csv
  with_part config q w = record {
    machine = record w.machine { events = w.machine.events ++ (analysed config ∷ []) };
    files = put (part_path T B H dir config) (B.to_csv q) w.files;
  }

  pub part-missing :
      (config : Text) (q : Frame) (w : World Csv)
      → has_key (part_path T B H dir config) w.files ≡ false
      → analysis T B H dir config ≡ ok (q, none)
      → part T B H dir config w ≡ (ok (q, none), with_part config q w)
  part-missing config q w new done = rw (new, done) refl

  pub collect-AllPresent :
      (cs : List Text) (results : Frame × Frame) (w : World Csv)
      → AllPresent cs w.files
      → AllSound T B H dir cs w.files
      → (last : Frame × Frame) × (collect T B H dir cs results w ≡ (ok last, w))
  unfolding collect
  collect-AllPresent [] results w all sounds = (results, refl)
  collect-AllPresent (config ∷ rest) results w (there, all) (sound, t_sound, sounds) =
      let (found, same) = part-present config w there sound t_sound in
      let (last, done) = collect-AllPresent rest (grown T B H results found) w all sounds in
      (last, rw same done)
