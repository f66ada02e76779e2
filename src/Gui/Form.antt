-- ===== src/Gui/Form.antt =====
-- `SimpleForm`: a row of entries, one of which has the focus.
pub mod Moves
pub mod Focus
use crownet.Prelude.{
  ℕ, zero, suc, ◌+◌, ◌-◌, ◌%◌, Bool, true, false, Option, none, some, List, [], ◌∷◌, if◌then◌else◌,
  Text, list_eq, nat_eq, length, get_elem?, put,
}
use crownet.Gui.Entry.{Entry, new_entry, valid, get_clean, foc_in, foc_out}

-- An item of `entries`: a name, whether it is required, and its placeholder.
pub data Item : Type 0 where
  one : Text → Item
  two : Text → Bool → Item
  three : Text → Bool → Text → Item

unfoldable pub entry_of : ℕ → Item → Entry
unfolding new_entry
entry_of idx (one name) = new_entry idx name name false
entry_of idx (two name required) = new_entry idx name name required
entry_of idx (three name required placeholder) = new_entry idx name placeholder required

unfoldable pub entries_from : ℕ → List Item → List Entry
unfolding entry_of
entries_from idx [] = []
entries_from idx (item ∷ items) = entry_of idx item ∷ entries_from (suc idx) items

pub record SimpleForm : Type 0 where
  pub inputs : List Entry
  pub focus : ℕ

-- `SimpleForm.__init__`. No entry has the focus, which is a number that no entry has.
unfoldable pub new_form : List Item → SimpleForm
unfolding entries_from
new_form items = record { inputs = entries_from 0 items; focus = length (entries_from 0 items) }

unfoldable pub change_at : (Entry → Entry) → ℕ → List Entry → List Entry
change_at f i [] = []
change_at f zero (e ∷ es) = f e ∷ es
change_at f (suc i) (e ∷ es) = e ∷ change_at f i es

-- `focus_set`: the entry that loses the focus and the one that gets it handle their events.
unfoldable pub focus_set : ℕ → SimpleForm → SimpleForm
unfolding change_at foc_in foc_out
focus_set idx f = record {
  inputs = change_at foc_in idx (change_at foc_out f.focus f.inputs);
  focus = idx;
}

unfoldable pub up_from : Option Entry → SimpleForm → SimpleForm
unfolding focus_set
up_from none f = f
up_from (some e) f = focus_set ((e.index + length f.inputs - 1) % length f.inputs) f

unfoldable pub down_from : Option Entry → SimpleForm → SimpleForm
unfolding focus_set
down_from none f = f
down_from (some e) f = focus_set ((e.index + 1) % length f.inputs) f

-- `e_input_up` and `e_input_down`, on the entry that has the focus.
unfoldable pub e_input_up : SimpleForm → SimpleForm
unfolding up_from
e_input_up f = up_from (get_elem? f.inputs f.focus) f

unfoldable pub e_input_down : SimpleForm → SimpleForm
unfolding down_from
e_input_down f = down_from (get_elem? f.inputs f.focus) f

-- The text of the entry with the focus becomes what was typed.
unfoldable pub type_text : Text → SimpleForm → SimpleForm
unfolding change_at
type_text s f = record f { inputs = change_at (λ e. record e { content = s }) f.focus f.inputs }

unfoldable pub is_valid : List Entry → Bool
unfolding valid
is_valid [] = true
is_valid (e ∷ es) = if valid e then is_valid es else false

unfoldable pub collect : List Entry → List (Text × Text) → List (Text × Text)
unfolding get_clean
collect [] data_ = data_
collect (e ∷ es) data_ = collect es (put e.item_title (get_clean e) data_)

-- `SimpleForm.get`
unfoldable pub get : SimpleForm → List (Text × Text)
unfolding is_valid collect
get f = if is_valid f.inputs then collect f.inputs [] else []
