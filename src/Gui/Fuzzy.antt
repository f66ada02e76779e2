-- ===== src/Gui/Fuzzy.antt =====
-- `FuzzyItemWrapper` and `FuzzyFindList`: a list of rows that a query narrows. `extractBests` of
-- `fuzzywuzzy` is a parameter: the query, the dict of texts to search and the lowest score give the
-- matches, the best first, each with its text, its score and its key.
pub mod Rows
pub mod Queries
use crownet.Prelude.{
  ℕ, zero, suc, ◌<◌, Bool, true, false, Option, none, some, List, [], ◌∷◌, map, if◌then◌else◌, Text,
  list_eq, nat_eq, length, get_elem?, decimal, ltb, lookup, put, Result, ok, err, value_error,
  index_error, key_error, or_raise, ◌>>=◌,
}

-- A wrapped object, with what its three functions give.
pub record FuzzyItem {ℓ} (A : Type ℓ) : Type ℓ where
  pub element : A
  pub id : Text
  pub display_str : Text
  pub search_str : Text

unfoldable pub wrap_string : Text → FuzzyItem Text
wrap_string obj = record { element = obj; id = obj; display_str = obj; search_str = obj }

unfoldable pub wrap_string_list : List Text → List (FuzzyItem Text)
unfolding wrap_string
wrap_string_list objs = map wrap_string objs

unfoldable pub wrap_number : ℕ → FuzzyItem ℕ
wrap_number obj = record {
  element = obj;
  id = decimal obj;
  display_str = decimal obj;
  search_str = decimal obj;
}

-- A row of the result: the displayed or the searched text, the score and the key.
abbrev pub Match : Type 0
Match = Text × (ℕ × Text)

abbrev pub match_key : Match → Text
match_key (s, (score, k)) = k

pub record FuzzyList {ℓ} (A : Type ℓ) : Type ℓ where
  pub raw_data_dict : List (Text × FuzzyItem A)
  pub search_dict : List (Text × Text)
  pub display_data : List Text
  pub q_result : List Match
  pub curselection : Option ℕ

module _ {ℓ} {A : Type ℓ} where
  -- `{item.id(): item for item in raw_data}`
  unfoldable pub dict_of :
      List (Text × FuzzyItem A) → List (FuzzyItem A) → List (Text × FuzzyItem A)
  dict_of d [] = d
  dict_of d (item ∷ items) = dict_of (put item.id item d) items

  unfoldable pub all_displayed : List (Text × FuzzyItem A) → List Text
  all_displayed d = map (λ p. p.1.display_str) d

  -- The rows that `__init__` and `reload_raw_data` make of the items.
  unfoldable pub loaded : List (Text × FuzzyItem A) → FuzzyList A
  unfolding all_displayed
  loaded d = record {
    raw_data_dict = d;
    search_dict = map (λ p. (p.0, p.1.search_str)) d;
    display_data = all_displayed d;
    q_result = map (λ p. (p.1.display_str, (100, p.0))) d;
    curselection = none;
  }

  -- `_search_update`: the first row is selected, if there is one.
  unfoldable pub search_update : FuzzyList A → FuzzyList A
  search_update s = if ltb 0 (length s.display_data) then record s { curselection = some 0 } else s

  unfoldable pub new_list : List (FuzzyItem A) → Result (FuzzyList A)
  unfolding dict_of loaded
  new_list [] = err value_error
  new_list (item ∷ items) =
      ok (record (loaded (dict_of [] (item ∷ items))) { curselection = some 0 })

  unfoldable pub reload_raw_data : List (FuzzyItem A) → FuzzyList A → FuzzyList A
  unfolding dict_of loaded
  reload_raw_data items s = record (loaded (dict_of [] items)) { curselection = s.curselection }

  -- A click on a row, or the keys that move the selection.
  abbrev pub select : ℕ → FuzzyList A → FuzzyList A
  select i s = record s { curselection = some i }

  -- `self._q_result[self.curselection()[0]]`, then the item under its key.
  unfoldable pub get_selected : FuzzyList A → Result (FuzzyItem A)
  get_selected s = do
    i ← or_raise s.curselection index_error
    row ← or_raise (get_elem? s.q_result i) index_error
    or_raise (lookup (match_key row) s.raw_data_dict) key_error

  unfoldable pub get_selected_raw : FuzzyList A → Result A
  unfolding get_selected
  get_selected_raw s = get_selected s >>= λ item. ok item.element

  -- What is displayed for the rows of a result.
  unfoldable pub displayed : List (Text × FuzzyItem A) → List Match → Result (List Text)
  displayed d [] = ok []
  displayed d (row ∷ rows) = do
    item ← or_raise (lookup (match_key row) d) key_error
    shown ← displayed d rows
    ok (item.display_str ∷ shown)

  -- `_match`, and the update of the selection that it asks for.
  unfoldable pub match_query :
      (Text → List (Text × Text) → ℕ → List Match) → Text → FuzzyList A → Result (FuzzyList A)
  unfolding displayed all_displayed search_update
  match_query extract_bests (c ∷ cs) s = do
    rows ← ok (extract_bests (c ∷ cs) s.search_dict 25)
    shown ← displayed s.raw_data_dict rows
    ok (search_update (record s { q_result = rows; display_data = shown }))
  match_query extract_bests [] s =
      ok (search_update (record s { display_data = all_displayed s.raw_data_dict }))
