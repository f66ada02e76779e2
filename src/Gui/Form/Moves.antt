-- ===== src/Gui/Form/Moves.antt =====
-- Moving the focus through a form: what the form reads stays, and up undoes down.
use crownet.Prelude.{
  ℕ, zero, suc, ◌+◌, ◌-◌, ◌%◌, ◌≡◌, ◌∙◌, refl, ap, Bool, true, false, not, ◌||◌, Option, none, some,
  List, [], ◌∷◌, map, if◌then◌else◌, Text, list_eq, nat_eq, list_beq, length, get_elem?, put,
}
use crownet.Gui.Entry.{
  Entry, View, view, get_clean, foc_in, foc_out, view-foc_in, view-foc_out, valid_lem,
}
use crownet.Gui.Form.{
  SimpleForm, change_at, focus_set, up_from, down_from, e_input_up, e_input_down, is_valid, collect,
  get,
}

-- What the form is to read, from what each entry shows: nothing while a required text is missing, and
-- otherwise the texts under their titles.
abbrev filled : View → Bool
filled (title, (mandatory, s)) = not mandatory || not (list_beq s [])

abbrev all_filled : List View → Bool
all_filled [] = true
all_filled (v ∷ vs) = if filled v then all_filled vs else false

abbrev texts : List View → List (Text × Text) → List (Text × Text)
texts [] d = d
texts ((title, (mandatory, s)) ∷ vs) d = texts vs (put title s d)

abbrev pub reading : List View → List (Text × Text)
reading vs = if all_filled vs then texts vs [] else []

is_valid_lem : (es : List Entry) → is_valid es ≡ all_filled (map view es)
unfolding is_valid
is_valid_lem [] = refl
is_valid_lem (e ∷ es) = rw (valid_lem e, is_valid_lem es) refl

collect_lem : (es : List Entry) (d : List (Text × Text)) → collect es d ≡ texts (map view es) d
unfolding collect
collect_lem [] d = refl
collect_lem (e ∷ es) d = collect_lem es (put e.item_title (get_clean e) d)

get_lem : (f : SimpleForm) → get f ≡ reading (map view f.inputs)
unfolding get
get_lem f = rw (is_valid_lem f.inputs, collect_lem f.inputs []) refl

map-change_at :
    (g : Entry → Entry) (i : ℕ) (es : List Entry)
    → ((e : Entry) → view (g e) ≡ view e)
    → map view (change_at g i es) ≡ map view es
unfolding change_at
map-change_at g i [] same = refl
map-change_at g zero (e ∷ es) same = ap (λ v. v ∷ map view es) (same e)
map-change_at g (suc i) (e ∷ es) same = ap (λ vs. view e ∷ vs) (map-change_at g i es same)

map-focus_set : (i : ℕ) (f : SimpleForm) → map view (focus_set i f).inputs ≡ map view f.inputs
unfolding focus_set
map-focus_set i f =
    map-change_at foc_in i (change_at foc_out f.focus f.inputs) view-foc_in
    ∙ map-change_at foc_out f.focus f.inputs view-foc_out

pub data Move : Type 0 where
  up down : Move

abbrev pub move : Move → SimpleForm → SimpleForm
move up f = e_input_up f
move down f = e_input_down f

abbrev pub moves : List Move → SimpleForm → SimpleForm
moves [] f = f
moves (m ∷ ms) f = moves ms (move m f)

map-move : (m : Move) (f : SimpleForm) → map view (move m f).inputs ≡ map view f.inputs
unfolding e_input_up e_input_down up_from down_from
map-move up f = from_up (get_elem? f.inputs f.focus)
  where
    from_up : (o : Option Entry) → map view (up_from o f).inputs ≡ map view f.inputs
    from_up none = refl
    from_up (some e) = map-focus_set ((e.index + length f.inputs - 1) % length f.inputs) f
map-move down f = from_down (get_elem? f.inputs f.focus)
  where
    from_down : (o : Option Entry) → map view (down_from o f).inputs ≡ map view f.inputs
    from_down none = refl
    from_down (some e) = map-focus_set ((e.index + 1) % length f.inputs) f

-- However the focus moves up and down, with the placeholders that come and go, the form reads the
-- same: nothing while a required entry has no text of its own, and otherwise the text of each entry
-- under its title, or the empty text where only the placeholder stands.
pub get-moves : (ms : List Move) (f : SimpleForm) → get (moves ms f) ≡ reading (map view f.inputs)
get-moves [] f = get_lem f
get-moves (m ∷ ms) f = get-moves ms (move m f) ∙ ap reading (map-move m f)
