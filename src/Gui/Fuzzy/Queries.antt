-- ===== src/Gui/Fuzzy/Queries.antt =====
-- What queries do to the rows: a query shows its matches, and the empty query shows rows that the
-- selection does not follow.
use crownet.Prelude.{
  ℕ, ◌≡◌, refl, ap, some, List, [], ◌∷◌, Text, list_eq, nat_eq, has_key, Result, ok, ◌>>=◌,
}
use crownet.Gui.Fuzzy.{
  FuzzyItem, FuzzyList, Match, dict_of, all_displayed, loaded, new_list, select, get_selected,
  match_query,
}
use crownet.Gui.Fuzzy.Rows.{
  AllKeys, Shows, Paired-Shows, displayed-Paired, loaded-Shows, Searches, AllKeys-raw,
  search_update_lem,
}

module _ {A : Type 0} (extract_bests : Text → List (Text × Text) → ℕ → List Match) where
  -- One query after the other, each with some text in it.
  abbrev pub run_queries : List (ℕ × Text) → FuzzyList A → Result (FuzzyList A)
  run_queries [] s = ok s
  run_queries ((c, cs) ∷ qs) s = match_query extract_bests (c ∷ cs) s >>= run_queries qs

  -- Emptying the query shows all the items again, but the result of the last query stays: the
  -- selection of a row gives what it gave before.
  pub match_query-stays :
      (i : ℕ) (s : FuzzyList A)
      → (after : FuzzyList A) × (match_query extract_bests [] s ≡ ok after)
        × (after.display_data ≡ all_displayed s.raw_data_dict)
        × (get_selected (select i after) ≡ get_selected (select i s))
  unfolding match_query get_selected
  match_query-stays i s =
      let (c, updated) =
        search_update_lem (record s { display_data = all_displayed s.raw_data_dict }) in
      (
        record s { display_data = all_displayed s.raw_data_dict; curselection = c },
        ap ok updated,
        refl,
        refl,
      )

  module _
      (of_dict : (query : Text) (d : List (Text × Text)) (cutoff : ℕ)
        → AllKeys (λ k. has_key k d) (extract_bests query d cutoff)) where
    match_query-Shows :
        (c : ℕ) (cs : Text) (s : FuzzyList A)
        → Searches s
        → (after : FuzzyList A) × (match_query extract_bests (c ∷ cs) s ≡ ok after)
          × Shows after
          × Searches after
    unfolding match_query
    match_query-Shows c cs s searches =
        let known : AllKeys (λ k. has_key k s.raw_data_dict)
            (extract_bests (c ∷ cs) s.search_dict 25) =
          AllKeys-raw s.raw_data_dict (extract_bests (c ∷ cs) s.search_dict 25)
            (rw (← searches) (of_dict (c ∷ cs) s.search_dict 25)) in
        let (shown, made, pairs) =
          displayed-Paired s.raw_data_dict (extract_bests (c ∷ cs) s.search_dict 25) known in
        let (cur, updated) =
          search_update_lem (record s {
            q_result = extract_bests (c ∷ cs) s.search_dict 25;
            display_data = shown;
          }) in
        (
          record s {
            q_result = extract_bests (c ∷ cs) s.search_dict 25;
            display_data = shown;
            curselection = cur;
          },
          rw made (ap ok updated),
          Paired-Shows
              (record s {
                q_result = extract_bests (c ∷ cs) s.search_dict 25;
                display_data = shown;
                curselection = cur;
              })
              pairs,
          searches,
        )

    run_queries-Shows :
        (qs : List (ℕ × Text)) (s : FuzzyList A)
        → Shows s
        → Searches s
        → (after : FuzzyList A) × (run_queries qs s ≡ ok after) × Shows after
    run_queries-Shows [] s shows searches = (s, refl, shows)
    run_queries-Shows ((c, cs) ∷ qs) s shows searches =
        let (mid, made, shows_mid, searches_mid) = match_query-Shows c cs s searches in
        let (after, ran, shows_after) = run_queries-Shows qs mid shows_mid searches_mid in
        (after, rw made ran, shows_after)

    -- A list of at least one item can be made, and queries with some text in them succeed one after
    -- the other, if the matches have keys of the dict that is searched. In the list that they leave,
    -- the selection of a displayed row gives an item that is displayed as that row.
    pub new_list-Shows :
        (item : FuzzyItem A) (items : List (FuzzyItem A)) (qs : List (ℕ × Text))
        → (after : FuzzyList A) × ((new_list (item ∷ items) >>= run_queries qs) ≡ ok after)
          × Shows after
    unfolding new_list
    new_list-Shows item items qs =
        run_queries-Shows qs (record (loaded (dict_of [] (item ∷ items))) { curselection = some 0 })
          (loaded-Shows (item ∷ items) (some 0)) loaded_searches
      where
        loaded_searches :
            Searches (record (loaded (dict_of [] (item ∷ items))) { curselection = some 0 })
        loaded_searches = refl
