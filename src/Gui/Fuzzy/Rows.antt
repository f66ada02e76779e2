-- ===== src/Gui/Fuzzy/Rows.antt =====
-- That a displayed row stands for the item it names, and where it does not.
use crownet.Prelude.{
  ℕ, zero, suc, ◌≡◌, ◌∙◌, refl, sym, Bool, true, false, Option, some, List, [], ◌∷◌, map,
  if◌then◌else◌, Text, list_eq, nat_eq, length, get_elem?, ltb, some_inj, lookup, put, has_key,
  has_key-some, Unique, Unique-put, Entries, Unique-Entries, ok, Bool-cases, inl, inr, list_beq,
}
use crownet.Gui.Fuzzy.{
  FuzzyItem, FuzzyList, Match, match_key, dict_of, all_displayed, loaded, search_update, select,
  get_selected, displayed,
}

-- All the keys of a result are known.
abbrev pub AllKeys : (Text → Bool) → List Match → Type 0
AllKeys known [] = Unit
AllKeys known (row ∷ rows) = (known (match_key row) ≡ true) × AllKeys known rows

module _ {A : Type 0} where
  -- What a click on a row gives: the item of the row, or an error past the last row.
  abbrev pub Shows : FuzzyList A → Type 0
  Shows s =
      (i : ℕ) (t : Text)
      → get_elem? s.display_data i ≡ some t
      → (item : FuzzyItem A) × (get_selected (select i s) ≡ ok item) × (item.display_str ≡ t)

  -- Each row's key leads to an item that is displayed as the text beside the row.
  abbrev pub Paired : List (Text × FuzzyItem A) → List Match → List Text → Type 0
  Paired d [] [] = Unit
  Paired d [] (t ∷ ts) = ⊥
  Paired d (row ∷ rows) [] = ⊥
  Paired d (row ∷ rows) (t ∷ ts) =
      ((item : FuzzyItem A) × (lookup (match_key row) d ≡ some item) × (item.display_str ≡ t))
      × Paired d rows ts

  Paired-get_elem? :
      (d : List (Text × FuzzyItem A)) (rows : List Match) (shown : List Text) (i : ℕ) (t : Text)
      → Paired d rows shown
      → get_elem? shown i ≡ some t
      → (row : Match) × (item : FuzzyItem A) × (get_elem? rows i ≡ some row)
        × (lookup (match_key row) d ≡ some item)
        × (item.display_str ≡ t)
  Paired-get_elem? d [] [] i t pairs found = cc
  Paired-get_elem? d [] (u ∷ us) i t pairs found = elim pairs [ ]
  Paired-get_elem? d (row ∷ rows) [] i t pairs found = elim pairs [ ]
  Paired-get_elem? d (row ∷ rows) (u ∷ us) zero t ((item, under, shows), pairs) found =
      (row, item, refl, under, shows ∙ some_inj u t found)
  Paired-get_elem? d (row ∷ rows) (u ∷ us) (suc i) t (pair, pairs) found =
      Paired-get_elem? d rows us i t pairs found

  pub Paired-Shows : (s : FuzzyList A) → Paired s.raw_data_dict s.q_result s.display_data → Shows s
  unfolding get_selected
  Paired-Shows s pairs i t found =
      let (row, item, at, under, shows) =
        Paired-get_elem? s.raw_data_dict s.q_result s.display_data i t pairs found in
      (item, rw (at, under) refl, shows)

  pub displayed-Paired :
      (d : List (Text × FuzzyItem A)) (rows : List Match)
      → AllKeys (λ k. has_key k d) rows
      → (shown : List Text) × (displayed d rows ≡ ok shown) × Paired d rows shown
  unfolding displayed
  displayed-Paired d [] known = ([], refl, tt)
  displayed-Paired d (row ∷ rows) (here, known) =
      let (shown, made, pairs) = displayed-Paired d rows known in
      let (item, under) = has_key-some (match_key row) d here in
      (item.display_str ∷ shown, rw (under, made) refl, ((item, under, refl), pairs))

  dict_of-Unique :
      (d : List (Text × FuzzyItem A)) (items : List (FuzzyItem A))
      → Unique d
      → Unique (dict_of d items)
  unfolding dict_of
  dict_of-Unique d [] u = u
  dict_of-Unique d (item ∷ items) u =
      dict_of-Unique (put item.id item d) items (Unique-put item.id item d u)

  loaded-Paired :
      (d f : List (Text × FuzzyItem A))
      → Entries d f
      → Paired f (map (λ p. (p.1.display_str, (100, p.0))) d) (map (λ p. p.1.display_str) d)
  loaded-Paired [] f all = tt
  loaded-Paired ((k, item) ∷ d) f (here, all) = ((item, here, refl), loaded-Paired d f all)

  pub loaded-Shows :
      (items : List (FuzzyItem A)) (c : Option ℕ)
      → Shows (record (loaded (dict_of [] items)) { curselection = c })
  unfolding loaded all_displayed
  loaded-Shows items c =
      Paired-Shows (record (loaded (dict_of [] items)) { curselection = c })
        (loaded-Paired (dict_of [] items) (dict_of [] items)
          (Unique-Entries (dict_of [] items) (dict_of-Unique [] items tt)))

  -- The texts to search are those of the items, under the same keys.
  abbrev pub Searches : FuzzyList A → Type 0
  Searches s = s.search_dict ≡ map (λ p. (p.0, p.1.search_str)) s.raw_data_dict

  has_key-map :
      (k : Text) (d : List (Text × FuzzyItem A))
      → has_key k (map (λ p. (p.0, p.1.search_str)) d) ≡ has_key k d
  has_key-map k [] = refl
  has_key-map k ((j, item) ∷ d) = elim (Bool-cases (list_beq k j)) [
    | inl same ↦ rw (same, has_key) refl
    | inr apart ↦ rw (apart, has_key) (has_key-map k d)
  ]

  pub AllKeys-raw :
      (d : List (Text × FuzzyItem A)) (rows : List Match)
      → AllKeys (λ k. has_key k (map (λ p. (p.0, p.1.search_str)) d)) rows
      → AllKeys (λ k. has_key k d) rows
  AllKeys-raw d [] all = tt
  AllKeys-raw d (row ∷ rows) (here, all) =
      (sym (has_key-map (match_key row) d) ∙ here, AllKeys-raw d rows all)

  pub search_update_lem :
      (s : FuzzyList A) → (c : Option ℕ) × (search_update s ≡ record s { curselection = c })
  unfolding search_update
  search_update_lem s = go (ltb 0 (length s.display_data))
    where
      go :
          (b : Bool)
          → (c : Option ℕ) × ((if b then record s { curselection = some 0 } else s)
              ≡ record s { curselection = c })
      go true = (some 0, refl)
      go false = (s.curselection, refl)
