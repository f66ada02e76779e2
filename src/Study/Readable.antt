-- ===== src/Study/Readable.antt =====
-- study.py: files of results that can be read.
use crownet.Prelude.{
  ◌≡◌, ◌∙◌, refl, sym, ap, Bool, true, false, Option, none, some, List, [], ◌∷◌, if◌then◌else◌,
  Text, list_eq, list_beq, list_beq_iff, nat_eq, beq_sym, contains, lookup, put, lookup-put, Result,
  ok, err, arith, map, or_false,
}
use crownet.Study.{Tools}
use crownet.Study.Memory.{Host}
use crownet.Study.Main.{Tables, part_path, t_part_path, without}

module _ (T : Tools) (B : Tables T) where
  open T use {Frame}
  open B use {Csv}

  abbrev pub returns : Result Frame → Bool
  returns (ok q) = true
  returns (err raised) = false

  abbrev pub reads : Option Csv → Bool
  reads none = true
  reads (some csv) = returns (B.read_csv csv)

  -- A file, if it is there, can be read.
  abbrev pub reads_at : Text → List (Text × Csv) → Bool
  reads_at path files = reads (lookup path files)

  pub reads_at-lookup :
      (path : Text) (csv : Csv) (files : List (Text × Csv))
      → lookup path files ≡ some csv
      → reads_at path files ≡ true
      → (q : Frame) × (B.read_csv csv ≡ ok q)
  reads_at-lookup path csv files found sound = go (B.read_csv csv) (sym (ap reads found) ∙ sound)
    where
      go : (r : Result Frame) → returns r ≡ true → (q : Frame) × (r ≡ ok q)
      go (ok q) h = (q, refl)
      go (err raised) h = absurd (cc)

  reads_at-put :
      (k j : Text) (csv : Csv) (files : List (Text × Csv))
      → reads_at j (put k csv files)
        ≡ (if list_beq j k then returns (B.read_csv csv) else reads_at j files)
  reads_at-put k j csv files = rw (lookup-put k j csv files) (go (list_beq j k))
    where
      go :
          (b : Bool)
          → reads (if b then some csv else lookup j files)
            ≡ (if b then returns (B.read_csv csv) else reads (lookup j files))
      go true = refl
      go false = refl

  pub reads_at-put_read :
      (k j : Text) (csv : Csv) (files : List (Text × Csv))
      → returns (B.read_csv csv) ≡ true
      → reads_at j files ≡ true
      → reads_at j (put k csv files) ≡ true
  reads_at-put_read k j csv files h sound =
      rw (reads_at-put k j csv files, h, sound) (go (list_beq j k))
    where
      go : (b : Bool) → (if b then true else true) ≡ true
      go true = refl
      go false = refl

module _ (T : Tools) (B : Tables T) (H : Host) where
  open T use {Frame}
  open B use {Csv}

  lookup-without :
      (k j : Text) (files : List (Text × Csv))
      → lookup j (without T B H k files) ≡ (if list_beq k j then none else lookup j files)
  lookup-without k j [] = ground arith
  lookup-without k j ((n, csv) ∷ files) =
      ground (arith, lookup-without k j files, list_beq_iff k n, list_beq_iff j n, list_beq_iff k j)

  reads_at-without :
      (k j : Text) (files : List (Text × Csv))
      → reads_at T B j files ≡ true
      → reads_at T B j (without T B H k files) ≡ true
  reads_at-without k j files sound = rw (lookup-without k j files) (go (list_beq k j))
    where
      go : (b : Bool) → reads T B (if b then none else lookup j files) ≡ true
      go true = refl
      go false = sound

  module _ (dir : Text) where
    -- The files of the configurations that are there can be read.
    abbrev pub AllSound : List Text → List (Text × Csv) → Type 0
    AllSound [] files = Unit
    AllSound (config ∷ rest) files =
        (reads_at T B (part_path T B H dir config) files ≡ true)
        × (reads_at T B (t_part_path T B H dir config) files ≡ true)
        × AllSound rest files

    pub AllSound-put_read :
        (k : Text) (csv : Csv) (cs : List Text) (files : List (Text × Csv))
        → returns T B (B.read_csv csv) ≡ true
        → AllSound cs files
        → AllSound cs (put k csv files)
    AllSound-put_read k csv [] files h all = tt
    AllSound-put_read k csv (c ∷ cs) files h (sound, t_sound, all) = (
      reads_at-put_read T B k (part_path T B H dir c) csv files h sound,
      reads_at-put_read T B k (t_part_path T B H dir c) csv files h t_sound,
      AllSound-put_read k csv cs files h all,
    )

    pub AllSound-without :
        (k : Text) (cs : List Text) (files : List (Text × Csv))
        → AllSound cs files
        → AllSound cs (without T B H k files)
    AllSound-without k [] files all = tt
    AllSound-without k (c ∷ cs) files (sound, t_sound, all) = (
      reads_at-without k (part_path T B H dir c) files sound,
      reads_at-without k (t_part_path T B H dir c) files t_sound,
      AllSound-without k cs files all,
    )

    -- A file of another name.
    pub AllSound-put :
        (k : Text) (csv : Csv) (cs : List Text) (files : List (Text × Csv))
        → contains (map (part_path T B H dir) cs) k ≡ false
        → contains (map (t_part_path T B H dir) cs) k ≡ false
        → AllSound cs files
        → AllSound cs (put k csv files)
    AllSound-put k csv [] files apart t_apart all = tt
    AllSound-put k csv (c ∷ cs) files apart t_apart (sound, t_sound, all) =
        let (other, later) =
          or_false (list_beq k (part_path T B H dir c)) (contains (map (part_path T B H dir) cs) k)
            apart in
        let (t_other, t_later) =
          or_false (list_beq k (t_part_path T B H dir c))
            (contains (map (t_part_path T B H dir) cs) k) t_apart in
        (
          rw
              (
                reads_at-put T B k (part_path T B H dir c) csv files,
                swapped k (part_path T B H dir c) other,
                sound,
              )
              refl,
          rw
              (
                reads_at-put T B k (t_part_path T B H dir c) csv files,
                swapped k (t_part_path T B H dir c) t_other,
                t_sound,
              )
              refl,
          AllSound-put k csv cs files later t_later all,
        )
      where
        swapped : (a b : Text) → list_beq a b ≡ false → list_beq b a ≡ false
        swapped a b e = ground (arith, e, beq_sym b a)
