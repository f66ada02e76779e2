-- ===== src/Trace/Update/Ids.antt =====
-- clean_sumo_traces.py: the ids of SUMO of the records and of the traces of `extract_steps`.
use crownet.Prelude.{
  ℕ, ◌≡◌, ◌∙◌, refl, sym, ap, ◌==◌, ==_iff, inl, inr, Bool, true, false, Bool-cases, ◌||◌, Option,
  none, some, List, [], ◌∷◌, map, nat_eq, get_elem?, put, has_key, has_key-put, add, contains,
  contains-add, beq_self, ok, index_error, or_raise, ◌>>=◌, returned, ok_inj, some_inj, arith,
}
use crownet.Trace.{TracePoint}
use crownet.Trace.Read.{BmRow, unique_from}
use crownet.Trace.Extract.{TimeIdMapping, time_id_records, empty_traces}

-- The pedestrians of some rows, and the ids of SUMO of some records.
abbrev pub row_ids : {F : Type 0} → List (BmRow F) → List ℕ
row_ids rows = map (λ r. r.id) rows

abbrev pub record_ids : {F : Type 0} → List (TimeIdMapping F) → List ℕ
record_ids records = map (λ r. r.sumo_id) records

pub contains-unique_from :
    {F : Type 0} (seen : List ℕ) (rows : List (BmRow F)) (b : ℕ)
    → contains (unique_from seen rows) b ≡ (contains seen b || contains (row_ids rows) b)
contains-unique_from seen [] b = ground arith
contains-unique_from seen (r ∷ rows) b =
    ground (arith, contains-unique_from (add seen r.id) rows b, contains-add seen r.id b)

-- The ids of SUMO of some pedestrians.
abbrev with_id : Option ℕ → List ℕ → List ℕ
with_id none ks = ks
with_id (some k) ks = k ∷ ks

abbrev pub sumo_of : List ℕ → List ℕ → List ℕ
sumo_of ids [] = []
sumo_of ids (b ∷ bs) = with_id (get_elem? ids b) (sumo_of ids bs)

pub or_true : (x y : Bool) → y ≡ true → (x || y) ≡ true
or_true x y h = ground (arith, h)

contains-sumo_of :
    (ids bs : List ℕ) (k : ℕ)
    → contains (sumo_of ids bs) k ≡ true
    → (b : ℕ) × (contains bs b ≡ true) × (get_elem? ids b ≡ some k)
contains-sumo_of ids [] k h = cc
contains-sumo_of ids (b ∷ bs) k h = go (get_elem? ids b) refl (contains-sumo_of ids bs k) h
  where
    Has : List ℕ → Type 0
    Has cs = (c : ℕ) × (contains cs c ≡ true) × (get_elem? ids c ≡ some k)

    more : Has bs → Has (b ∷ bs)
    more (c, there, found) = (c, or_true (c == b) (contains bs c) there, found)

    go :
        (o : Option ℕ)
        → get_elem? ids b ≡ o
        → (contains (sumo_of ids bs) k ≡ true → Has bs)
        → contains (with_id o (sumo_of ids bs)) k ≡ true
        → Has (b ∷ bs)
    go none e ih h = more (ih h)
    go (some j) e ih h = elim (Bool-cases (k == j)) [
      | inl same ↦ (b, rw (beq_self b) refl, e ∙ ap some (sym ((==_iff k j).0 same)))
      | inr other ↦ more (ih ((rw other refl) ∙ h))
    ]

sumo_of-contains :
    (ids bs : List ℕ) (b k : ℕ)
    → contains bs b ≡ true
    → get_elem? ids b ≡ some k
    → contains (sumo_of ids bs) k ≡ true
sumo_of-contains ids [] b k there found = cc
sumo_of-contains ids (c ∷ bs) b k there found = elim (Bool-cases (b == c)) [
  | inl same ↦ here (get_elem? ids c) (ap (get_elem? ids) (sym ((==_iff b c).0 same)) ∙ found)
  | inr other ↦
      later (get_elem? ids c) (sumo_of-contains ids bs b k ((rw other refl) ∙ there) found)
]
  where
    here : (o : Option ℕ) → o ≡ some k → contains (with_id o (sumo_of ids bs)) k ≡ true
    here none e = cc
    here (some j) e = let same : j ≡ k = some_inj j k e in rw (same, beq_self k) refl

    later :
        (o : Option ℕ)
        → contains (sumo_of ids bs) k ≡ true
        → contains (with_id o (sumo_of ids bs)) k ≡ true
    later none h = h
    later (some j) h = or_true (k == j) (contains (sumo_of ids bs) k) h

-- The same pedestrians have the same ids of SUMO.
pub sumo_of-same :
    (ids bs cs : List ℕ)
    → ((b : ℕ) → contains bs b ≡ contains cs b)
    → (k : ℕ) → contains (sumo_of ids bs) k ≡ true
    → contains (sumo_of ids cs) k ≡ true
sumo_of-same ids bs cs same k h =
    let (b, there, found) = contains-sumo_of ids bs k h in
    sumo_of-contains ids cs b k (sym (same b) ∙ there) found

id_found : (o : Option ℕ) (k : ℕ) → or_raise o index_error ≡ ok k → o ≡ some k
id_found none k h = cc
id_found (some j) k h = cc

pub record_ids-sumo_of :
    {F : Type 0} (ids : List ℕ) (rows : List (BmRow F)) (records : List (TimeIdMapping F))
    → time_id_records ids rows ≡ ok records
    → record_ids records ≡ sumo_of ids (row_ids rows)
record_ids-sumo_of ids [] records made = ap record_ids (sym (ok_inj [] records made))
record_ids-sumo_of {F} ids (r ∷ rows) records made =
    let (k, found, next) =
      returned (or_raise (get_elem? ids r.id) index_error)
        (λ k. time_id_records ids rows >>= λ rest. ok (record_of k ∷ rest)) records made in
    let (rest, mapped, last) =
      returned (time_id_records ids rows) (λ rest. ok (record_of k ∷ rest)) records next in
    ap record_ids (sym (ok_inj (record_of k ∷ rest) records last))
    ∙ (ap (λ l. k ∷ l) (record_ids-sumo_of ids rows rest mapped)
        ∙ sym (
            ap (λ o. with_id o (sumo_of ids (row_ids rows)))
              (id_found (get_elem? ids r.id) k found)))
  where
    record_of : ℕ → TimeIdMapping F
    record_of k = record { time = r.time; sumo_id = k; bm_id = r.id }

pub has_key-empty_traces :
    {F : Type 0} (ids bs : List ℕ) (d empty : List (ℕ × List (TracePoint F))) (k : ℕ)
    → empty_traces ids bs d ≡ ok empty
    → has_key k empty ≡ (contains (sumo_of ids bs) k || has_key k d)
has_key-empty_traces ids [] d empty k made = ap (has_key k) (sym (ok_inj d empty made))
has_key-empty_traces ids (b ∷ bs) d empty k made =
    let (j, found, rest) =
      returned (or_raise (get_elem? ids b) index_error) (λ k. empty_traces ids bs (put k [] d))
        empty made in
    has_key-empty_traces ids bs (put j [] d) empty k rest
    ∙ (ground (arith, has_key-put j k [] d)
        ∙ sym (
            ap (λ o. contains (with_id o (sumo_of ids bs)) k || has_key k d)
              (id_found (get_elem? ids b) j found)))

pub iff_eq : (a b : Bool) → (a ≡ true → b ≡ true) → (b ≡ true → a ≡ true) → a ≡ b
iff_eq true b f g = sym (f refl)
iff_eq false true f g = g refl
iff_eq false false f g = refl

pub or_nothing : (a : Bool) → a ≡ (a || false)
or_nothing true = refl
or_nothing false = refl
