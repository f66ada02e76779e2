-- ===== src/Gui/Entry.antt =====
-- `EntryWithPlaceholder`: a line of text that shows a placeholder while it is empty and has not the
-- focus. Its two colours are the same, so the colour is left out.
use crownet.Prelude.{
  ℕ, ◌≡◌, refl, sym, ap, Bool, true, false, not, ◌&&◌, ◌||◌, [], ◌∷◌, ◌++◌, if◌then◌else◌, Text,
  text, list_eq, nat_eq, list_beq, list_beq_iff, arith, Bool-cases, inl, inr,
}

pub record Entry : Type 0 where
  pub index : ℕ
  pub mandatory : Bool
  pub item_title : Text
  pub placeholder : Text
  pub content : Text

-- `put_placeholder` inserts before the text that is there.
unfoldable pub put_placeholder : Entry → Entry
put_placeholder e = record e { content = e.placeholder ++ e.content }

-- `EntryWithPlaceholder.__init__`
unfoldable pub new_entry : ℕ → Text → Text → Bool → Entry
unfolding put_placeholder
new_entry index name placeholder mandatory = put_placeholder record {
  index = index;
  mandatory = mandatory;
  item_title = name;
  placeholder =
      if mandatory
      then text "<" ++ (placeholder ++ text ">*")
      else text "<" ++ (placeholder ++ text ">");
  content = [];
}

unfoldable pub has_data : Entry → Bool
has_data e = not (list_beq e.content []) && not (list_beq e.content e.placeholder)

unfoldable pub valid : Entry → Bool
valid e =
    if e.mandatory
    then not (list_beq e.content []) && not (list_beq e.content e.placeholder)
    else true

unfoldable pub get_clean : Entry → Text
get_clean e = if list_beq e.content e.placeholder then [] else e.content

unfoldable pub foc_in : Entry → Entry
foc_in e = record e { content = if list_beq e.content e.placeholder then [] else e.content }

unfoldable pub foc_out : Entry → Entry
unfolding put_placeholder
foc_out e = record e {
  content = if list_beq e.content [] then (put_placeholder e).content else e.content;
}

-- What the form's reader sees of an entry: its title, whether it has to be filled, and its text.
abbrev pub View : Type 0
View = Text × (Bool × Text)

abbrev pub view : Entry → View
view e = (e.item_title, (e.mandatory, get_clean e))

either_way : (b : Bool) (t : Text) → (if b then t else t) ≡ t
either_way true t = refl
either_way false t = refl

get_clean-foc_in : (e : Entry) → get_clean (foc_in e) ≡ get_clean e
unfolding get_clean foc_in
get_clean-foc_in e = elim (Bool-cases (list_beq e.content e.placeholder)) [
  | inl shown ↦ rw shown (either_way (list_beq [] e.placeholder) [])
  | inr typed ↦ rw (typed, typed) refl
]

append_nil : (s : Text) → s ++ [] ≡ s
append_nil [] = refl
append_nil (c ∷ s) = ap (λ t. c ∷ t) (append_nil s)

get_clean-foc_out : (e : Entry) → get_clean (foc_out e) ≡ get_clean e
unfolding get_clean foc_out put_placeholder
get_clean-foc_out e = go e.content
  where
    go :
        (s : Text)
        → get_clean (foc_out (record e { content = s })) ≡ get_clean (record e { content = s })
    go [] =
        rw (append_nil e.placeholder, (list_beq_iff e.placeholder e.placeholder).1 refl)
          (sym (either_way (list_beq [] e.placeholder) []))
    go (c ∷ s) = refl

pub view-foc_in : (e : Entry) → view (foc_in e) ≡ view e
unfolding foc_in
view-foc_in e = ap (λ t. (e.item_title, (e.mandatory, t))) (get_clean-foc_in e)

pub view-foc_out : (e : Entry) → view (foc_out e) ≡ view e
unfolding foc_out
view-foc_out e = ap (λ t. (e.item_title, (e.mandatory, t))) (get_clean-foc_out e)

-- An entry is valid if it need not be filled or has text of its own.
pub valid_lem : (e : Entry) → valid e ≡ (not e.mandatory || not (list_beq (get_clean e) []))
unfolding valid get_clean
valid_lem e = go e.mandatory (list_beq e.content e.placeholder)
  where
    go :
        (m shown : Bool)
        → (if m then not (list_beq e.content []) && not shown else true)
          ≡ (not m || not (list_beq (if shown then [] else e.content) []))
    go true true = ground arith
    go true false = ground arith
    go false shown = refl
