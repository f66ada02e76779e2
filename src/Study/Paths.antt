-- ===== src/Study/Paths.antt =====
-- study.py: the result files of the ten configurations have different names.
use crownet.Prelude.{
  ℕ, ◌≡◌, ◌∙◌, refl, ap, Bool, true, false, ◌==◌, List, [], ◌∷◌, ◌++◌, map, if◌then◌else◌, Text,
  text, list_eq, list_beq, nat_eq, beq_self, contains, IsSetList,
}
use crownet.SumoRuns.{join_path}
use crownet.Study.{Tools}
use crownet.Study.Memory.{Host}
use crownet.Study.Main.{Tables, configs}
use crownet.Study.Parts.{paths}

-- A directory with its slash.
abbrev pub slashed : Text → Text
slashed [] = []
slashed (c ∷ []) = if c == b'/' then c ∷ [] else c ∷ b'/' ∷ []
slashed (c ∷ d ∷ dir) = c ∷ slashed (d ∷ dir)

pub join_path-slashed : (dir name : Text) → join_path dir name ≡ slashed dir ++ name
join_path-slashed [] name = refl
join_path-slashed (c ∷ []) name = go (c == b'/')
  where
    go :
        (b : Bool)
        → (if b then c ∷ name else c ∷ b'/' ∷ name) ≡ (if b then c ∷ [] else c ∷ b'/' ∷ []) ++ name
    go true = refl
    go false = refl
join_path-slashed (c ∷ d ∷ dir) name = ap (λ r. c ∷ r) (join_path-slashed (d ∷ dir) name)

join_path-append :
    (dir : Text) (c : ℕ) (s name : Text)
    → join_path (dir ++ (c ∷ s)) name ≡ dir ++ join_path (c ∷ s) name
join_path-append [] c s name = refl
join_path-append (a ∷ []) c s name = refl
join_path-append (a ∷ b ∷ dir) c s name = ap (λ r. a ∷ r) (join_path-append (b ∷ dir) c s name)

pub list_beq-append : (p x y : Text) → list_beq (p ++ x) (p ++ y) ≡ list_beq x y
list_beq-append [] x y = refl
list_beq-append (a ∷ p) x y = rw (beq_self a) (list_beq-append p x y)

contains-map_append :
    (p x : Text) (xs : List Text) → contains (map (λ s. p ++ s) xs) (p ++ x) ≡ contains xs x
contains-map_append p x [] = refl
contains-map_append p x (y ∷ xs) = rw (list_beq-append p x y, contains-map_append p x xs) refl

map_append-IsSetList : (p : Text) (xs : List Text) → IsSetList xs → IsSetList (map (λ s. p ++ s) xs)
map_append-IsSetList p [] u = tt
map_append-IsSetList p (x ∷ xs) (new, u) =
    (contains-map_append p x xs ∙ new, map_append-IsSetList p xs u)

-- The name of a result file of a kind after the directory of all results.
abbrev pub name_of : Text → Text → Text
name_of kind config = join_path config (kind ++ (config ++ text ".csv"))

abbrev pub path_of : Text → Text → Text → Text
path_of kind dir config = join_path (join_path dir config) (kind ++ (config ++ text ".csv"))

-- No name is empty.
abbrev pub AllNamed : List Text → Type 0
AllNamed [] = Unit
AllNamed ([] ∷ cs) = ⊥
AllNamed ((c ∷ s) ∷ cs) = AllNamed cs

pub path_of_lem :
    (kind dir : Text) (cs : List Text)
    → AllNamed cs
    → map (path_of kind dir) cs ≡ map (λ s. slashed dir ++ s) (map (name_of kind) cs)
path_of_lem kind dir [] h = refl
path_of_lem kind dir ([] ∷ cs) h = elim h [ ]
path_of_lem kind dir ((c ∷ s) ∷ cs) h =
    rw
      (
        join_path-slashed dir (c ∷ s),
        join_path-append (slashed dir) c s (kind ++ ((c ∷ s) ++ text ".csv")),
        path_of_lem kind dir cs h,
      )
      refl

path_of-IsSetList :
    (kind dir : Text) (cs : List Text)
    → AllNamed cs
    → IsSetList (map (name_of kind) cs)
    → IsSetList (map (path_of kind dir) cs)
path_of-IsSetList kind dir cs h apart =
    rw (path_of_lem kind dir cs h)
      (map_append-IsSetList (slashed dir) (map (name_of kind) cs) apart)

pub configs-IsSetList :
    (T : Tools) (B : Tables T) (H : Host) (dir : Text) → IsSetList (paths T B H dir configs)
configs-IsSetList T B H dir = path_of-IsSetList (text "qoi_part_") dir configs tt named
  where
    named : IsSetList (map (name_of (text "qoi_part_")) configs)
    named = (refl, (refl, (refl, (refl, (refl, (refl, (refl, (refl, (refl, (refl, tt))))))))))
