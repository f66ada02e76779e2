-- ===== src/Study/Ends.antt =====
-- study.py: the files with the results of all are not those of one configuration.
use crownet.Prelude.{
  ℕ, ◌+◌, ◌-◌, ◌≡◌, ◌∙◌, refl, sym, ap, ◌==◌, ==_iff, leb, Bool, true, false, not, ◌&&◌, Option,
  none, some, List, [], ◌∷◌, ◌++◌, map, length, length-append, get_elem?, get_elem?-append_right,
  Text, text, list_eq, list_beq, list_beq_iff, nat_eq, contains, arith,
}
use crownet.SumoRuns.{join_path}
use crownet.Study.Main.{configs}
use crownet.Study.Paths.{AllNamed, slashed, join_path-slashed, name_of, path_of, path_of_lem}

-- The character before the last four, which are `.csv` here.
abbrev last_letter : Text → Option ℕ
last_letter s = get_elem? s (length s - 5)

last_letter-append : (p x : Text) → leb 5 (length x) ≡ true → last_letter (p ++ x) ≡ last_letter x
last_letter-append p x h =
    rw (length-append p x, moved (length p) (length x) h)
      (get_elem?-append_right p x (length x - 5))
  where
    moved : (m n : ℕ) → leb 5 n ≡ true → m + n - 5 ≡ m + (n - 5)
    moved m n h = ground arith

abbrev differ : Option ℕ → Option ℕ → Bool
differ none none = false
differ none (some b) = true
differ (some a) none = true
differ (some a) (some b) = not (a == b)

differ_self : (o : Option ℕ) → differ o o ≡ false
differ_self none = refl
differ_self (some a) = rw ((==_iff a a).1 refl) refl

-- The names are long enough, and their last letters are other than that of a name.
abbrev all_differ : Text → List Text → Bool
all_differ x [] = true
all_differ x (y ∷ ys) =
    leb 5 (length y) && (differ (last_letter x) (last_letter y) && all_differ x ys)

and_true : (a b : Bool) → (a && b) ≡ true → (a ≡ true) × (b ≡ true)
and_true a b h = ground (arith, h)

list_beq-differ :
    (a b : Text) → differ (last_letter a) (last_letter b) ≡ true → list_beq a b ≡ false
list_beq-differ a b h = go (list_beq a b) refl
  where
    equal : a ≡ b → false ≡ true
    equal e =
        sym (differ_self (last_letter a)) ∙ ap (λ c. differ (last_letter a) (last_letter c)) e ∙ h

    go : (r : Bool) → list_beq a b ≡ r → r ≡ false
    go false e = refl
    go true e = sym (equal ((list_beq_iff a b).0 e))

contains-all_differ :
    (p q x : Text) (ys : List Text)
    → leb 5 (length x) ≡ true
    → all_differ x ys ≡ true
    → contains (map (λ s. p ++ s) ys) (q ++ x) ≡ false
contains-all_differ p q x [] long h = refl
contains-all_differ p q x (y ∷ ys) long h =
    let (long_y, h') =
      and_true (leb 5 (length y)) (differ (last_letter x) (last_letter y) && all_differ x ys) h in
    let (other, all) = and_true (differ (last_letter x) (last_letter y)) (all_differ x ys) h' in
    rw
      (
        list_beq-differ (q ++ x) (p ++ y)
            (rw (last_letter-append q x long, last_letter-append p y long_y) other),
        contains-all_differ p q x ys long all,
      )
      refl

path_of-apart :
    (kind dir base x : Text) (cs : List Text)
    → AllNamed cs
    → leb 5 (length x) ≡ true
    → all_differ x (map (name_of kind) cs) ≡ true
    → contains (map (path_of kind dir) cs) (join_path base x) ≡ false
path_of-apart kind dir base x cs named long h =
    rw (path_of_lem kind dir cs named, join_path-slashed base x)
      (contains-all_differ (slashed dir) (slashed base) x (map (name_of kind) cs) long h)

module _ (base dir : Text) where
  -- Not a file of one configuration.
  abbrev pub IsApart : Text → Type 0
  IsApart path =
      (contains (map (path_of (text "qoi_part_") dir) configs) path ≡ false)
      × (contains (map (path_of (text "qoi_t_part_") dir) configs) path ≡ false)

  pub results-IsApart :
      IsApart (join_path base (text "qoi_results.csv"))
      × IsApart (join_path base (text "qoi_results_t.csv"))
  results-IsApart = (
    (
      path_of-apart (text "qoi_part_") dir base (text "qoi_results.csv") configs tt refl refl,
      path_of-apart (text "qoi_t_part_") dir base (text "qoi_results.csv") configs tt refl refl,
    ),
    (
      path_of-apart (text "qoi_part_") dir base (text "qoi_results_t.csv") configs tt refl refl,
      path_of-apart (text "qoi_t_part_") dir base (text "qoi_results_t.csv") configs tt refl refl,
    ),
  )
