-- ===== src/Gui/Tests.antt =====
-- A form with two entries and a list of three names.
use crownet.Prelude.{
  ℕ, ◌≡◌, refl, Bool, true, false, some, List, [], ◌∷◌, map, Text, text, list_eq, nat_eq, has_key,
  ok, ◌>>=◌, starts_with, arith, beq_self,
}
use crownet.Gui.Entry.{view}
use crownet.Gui.Form.{
  SimpleForm, one, two, new_form, focus_set, type_text, get, e_input_up, e_input_down,
}
use crownet.Gui.Form.Moves.{up, down, moves, get-moves, reading}
use crownet.Gui.Form.Focus.{Ready, up_down_lem, new_form-Ready}
use crownet.Gui.Fuzzy.{
  FuzzyItem, FuzzyList, Match, new_list, select, get_selected, match_query, all_displayed, loaded,
  dict_of, search_update,
}
use crownet.Gui.Fuzzy.Rows.{AllKeys, Shows}
use crownet.Gui.Fuzzy.Queries.{run_queries, new_list-Shows}

abbrev glossary_form : SimpleForm
glossary_form = focus_set 0 (new_form (two (text "term") true ∷ one (text "note") ∷ []))

abbrev typed_form : SimpleForm
typed_form = type_text (text "enb") glossary_form

get-moves_example :
    get (moves (down ∷ down ∷ up ∷ []) typed_form) ≡ reading (map view typed_form.inputs)
get-moves_example = get-moves (down ∷ down ∷ up ∷ []) typed_form

up_down_lem_example :
    Ready (e_input_down glossary_form)
    × Ready (e_input_up glossary_form)
    × ((e_input_up (e_input_down glossary_form)).focus ≡ glossary_form.focus)
    × ((e_input_down (e_input_up glossary_form)).focus ≡ glossary_form.focus)
up_down_lem_example =
    up_down_lem glossary_form (new_form-Ready (two (text "term") true) (one (text "note") ∷ []))

-- All the items whose text starts as the query does, with one score.
abbrev by_prefix : Text → List (Text × Text) → ℕ → List Match
by_prefix query [] cutoff = []
by_prefix query ((k, s) ∷ d) cutoff = elim (starts_with s query) [
  | true ↦ (s, (90, k)) ∷ by_prefix query d cutoff
  | false ↦ by_prefix query d cutoff
]

AllKeys-more :
    (j : Text) (w : Text) (d : List (Text × Text)) (rows : List Match)
    → AllKeys (λ k. has_key k d) rows
    → AllKeys (λ k. has_key k ((j, w) ∷ d)) rows
AllKeys-more j w d [] all = tt
AllKeys-more j w d ((s, (n, k)) ∷ rows) (here, all) =
    (ground (arith, here), AllKeys-more j w d rows all)

by_prefix-AllKeys :
    (query : Text) (d : List (Text × Text)) (cutoff : ℕ)
    → AllKeys (λ k. has_key k d) (by_prefix query d cutoff)
by_prefix-AllKeys query [] cutoff = tt
by_prefix-AllKeys query ((k, s) ∷ d) cutoff =
    go (starts_with s query)
      (AllKeys-more k s d (by_prefix query d cutoff) (by_prefix-AllKeys query d cutoff))
  where
    go :
        (b : Bool)
        → AllKeys (λ j. has_key j ((k, s) ∷ d)) (by_prefix query d cutoff)
        → AllKeys
            (λ j. has_key j ((k, s) ∷ d))
            (elim b [
              | true ↦ (s, (90, k)) ∷ by_prefix query d cutoff
              | false ↦ by_prefix query d cutoff
            ])
    go true rest = (here, rest)
      where
        here : has_key k ((k, s) ∷ d) ≡ true
        here = rw (beq_self k, has_key) refl
    go false rest = rest

abbrev lane : FuzzyItem Text
lane = record {
  element = text "lane";
  id = text "1";
  display_str = text "lane";
  search_str = text "lane";
}

abbrev link : FuzzyItem Text
link = record {
  element = text "link";
  id = text "2";
  display_str = text "link";
  search_str = text "link";
}

abbrev queries : List (ℕ × Text)
queries = (b'l', text "i") ∷ (b'l', []) ∷ []

new_list-Shows_example :
    (after : FuzzyList Text) × ((new_list (lane ∷ link ∷ []) >>= run_queries by_prefix queries)
      ≡ ok after)
    × Shows after
new_list-Shows_example = new_list-Shows by_prefix by_prefix-AllKeys lane (link ∷ []) queries

-- The list after the query `li`, of which one row is left.
abbrev narrowed : FuzzyList Text
narrowed = record (loaded (dict_of [] (lane ∷ link ∷ []))) {
  q_result = (text "link", (90, text "2")) ∷ [];
  display_data = text "link" ∷ [];
  curselection = some 0;
}

-- The first row then reads `lane`, and selecting it gives `link`.
wrong_item : (match_query by_prefix [] narrowed >>= λ s. get_selected (select 0 s)) ≡ ok link
unfolding match_query get_selected search_update all_displayed loaded dict_of
wrong_item = refl
