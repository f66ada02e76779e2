-- ===== src/SumoRuns/Names.antt =====
-- run_sumo_simulations.py: the containers of a list have different names.
use crownet.Prelude.{
  ℕ, zero, suc, ◌+◌, ◌-◌, ◌<◌, ◌≡◌, ◌∙◌, refl, sym, ap, Bool, true, false, List, [], ◌∷◌, ◌++◌,
  Text, text, decimal, digits_value, digits_value-decimal, length, length-append, contains,
  IsSetList, list_eq, list_beq, list_beq_iff, nat_eq, arith,
}
use crownet.SumoRuns.{zeros, padded, container_name}

append_cancel_right : (s t r : Text) → s ++ r ≡ t ++ r → s ≡ t
append_cancel_right [] [] r h = refl
append_cancel_right [] (y ∷ t) r h =
    absurd (omega (arith, ap (length {A = ℕ}) h, length-append (y ∷ t) r))
append_cancel_right (x ∷ s) [] r h =
    absurd (omega (arith, ap (length {A = ℕ}) h, length-append (x ∷ s) r))
append_cancel_right (x ∷ s) (y ∷ t) r h =
    let first : x ≡ y = cc in
    let rest : s ++ r ≡ t ++ r = cc in let same = append_cancel_right s t r rest in cc

append_cancel_left : (r s t : Text) → r ++ s ≡ r ++ t → s ≡ t
append_cancel_left [] s t h = h
append_cancel_left (x ∷ r) s t h = append_cancel_left r s t (cc)

digits_value-zeros : (n : ℕ) (s : Text) → digits_value 0 (zeros n s) ≡ digits_value 0 s
digits_value-zeros zero s = refl
digits_value-zeros (suc n) s = digits_value-zeros n s

padded-injective : (i j : ℕ) → padded i ≡ padded j → i ≡ j
padded-injective i j h =
    sym (digits_value-zeros (3 - length (decimal i)) (decimal i) ∙ digits_value-decimal i)
    ∙ (ap (digits_value 0) h
        ∙ (digits_value-zeros (3 - length (decimal j)) (decimal j) ∙ digits_value-decimal j))

container_name-injective :
    (i j : ℕ) (suffix : Text) → container_name i suffix ≡ container_name j suffix → i ≡ j
container_name-injective i j suffix h = padded-injective i j (
    append_cancel_right (padded i) (padded j) (text "_" ++ suffix) (
      append_cancel_left (text "sumo_") (padded i ++ (text "_" ++ suffix))
        (padded j ++ (text "_" ++ suffix)) h))

-- The names of as many containers as there are commands, from a number on.
abbrev pub names_from : ℕ → Text → List (List Text) → List Text
names_from n suffix [] = []
names_from n suffix (cmd ∷ cmds) = container_name n suffix ∷ names_from (n + 1) suffix cmds

contains-names_from :
    (i n : ℕ) (suffix : Text) (cmds : List (List Text))
    → i < n
    → contains (names_from n suffix cmds) (container_name i suffix) ≡ false
contains-names_from i n suffix [] h = refl
contains-names_from i n suffix (cmd ∷ cmds) h =
    other (list_beq (container_name i suffix) (container_name n suffix)) refl
      (contains-names_from i (n + 1) suffix cmds (omega arith))
  where
    other :
        (b : Bool)
        → list_beq (container_name i suffix) (container_name n suffix) ≡ b
        → contains (names_from (n + 1) suffix cmds) (container_name i suffix) ≡ false
        → contains (names_from n suffix (cmd ∷ cmds)) (container_name i suffix) ≡ false
    other true e rest = absurd (
        omega (
          arith,
          container_name-injective i n suffix
              ((list_beq_iff (container_name i suffix) (container_name n suffix)).0 e),
        ))
    other false e rest = rw e rest

pub names_from-IsSetList :
    (n : ℕ) (suffix : Text) (cmds : List (List Text)) → IsSetList (names_from n suffix cmds)
names_from-IsSetList n suffix [] = tt
names_from-IsSetList n suffix (cmd ∷ cmds) = (
  contains-names_from n (n + 1) suffix cmds (omega arith),
  names_from-IsSetList (n + 1) suffix cmds,
)
