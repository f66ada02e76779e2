-- ===== src/Trace/Extract/Copies.antt =====
-- clean_sumo_traces.py: which traces and steps `extract_steps` returns.
use mathlib.Core.List.{append_assoc, append-nil}
use crownet.Prelude.{
  ℕ, zero, suc, ◌≡◌, ◌∙◌, refl, sym, ap, inl, inr, ◌==◌, ==_iff, true, false, Bool-cases,
  Option-cases, Option, none, some, List, [], ◌∷◌, ◌++◌, if◌then◌else◌, nat_eq, lookup, has_key,
  put, lookup-put, ok,
}
use crownet.Trace.{TracePoint}
use crownet.Trace.Extract.{TimeIdMapping, TimeStep, points_of, extend_at, collect}

abbrev pub copies : {A : Type 0} → ℕ → List A → List A
copies zero xs = []
copies (suc n) xs = xs ++ copies n xs

some_of_has_key :
    {V : Type 0} (k : ℕ) (d : List (ℕ × V)) → has_key k d ≡ true → (v : V) × (lookup k d ≡ some v)
some_of_has_key k d h = elim (Option-cases (lookup k d)) [
  | inr found ↦ found
  | inl e ↦ absurd (let q : has_key k d ≡ false = rw (e, has_key) refl in cc)
]

module _ {F : Type 0} where
  -- How many records a pedestrian has.
  abbrev pub count : ℕ → List (TimeIdMapping F) → ℕ
  count k [] = 0
  count k (r ∷ records) = if k == r.sumo_id then suc (count k records) else count k records

  abbrev pub HasKeys : {V : Type 0} → List (TimeIdMapping F) → List (ℕ × V) → Type 0
  HasKeys [] d = Unit
  HasKeys (r ∷ records) d = (has_key r.sumo_id d ≡ true) × HasKeys records d

  -- The entry of a key, put after what was there.
  abbrev pub grown :
      List (TracePoint F) → Option (List (TracePoint F)) → Option (List (TracePoint F))
  grown more none = none
  grown more (some old) = some (old ++ more)

  Extended :
      ℕ
      → List (TracePoint F)
      → List (TracePoint F)
      → List (ℕ × List (TracePoint F))
      → List (ℕ × List (TracePoint F))
      → Type 0
  Extended k old points d d' =
      (j : ℕ) → lookup j d' ≡ (if j == k then some (old ++ points) else lookup j d)

  extend_at-Extended :
      (k : ℕ) (old points : List (TracePoint F)) (d : List (ℕ × List (TracePoint F)))
      → lookup k d ≡ some old
      → (d' : List (ℕ × List (TracePoint F))) × (extend_at k points d ≡ ok d')
        × Extended k old points d d'
  unfolding Extended
  extend_at-Extended k old [] d h = (d, refl, same)
    where
      same : (j : ℕ) → lookup j d ≡ (if j == k then some (old ++ []) else lookup j d)
      same j = elim (Bool-cases (j == k)) [
        | inl e ↦ rw (e, append-nil) (ap (λ i. lookup i d) ((==_iff j k).0 e) ∙ h)
        | inr e ↦ rw e refl
      ]
  extend_at-Extended k old (p ∷ points) d h = (
    put k (old ++ (p ∷ points)) d,
    rw (h, extend_at) refl,
    λ j. lookup-put k j (old ++ (p ∷ points)) d,
  )

  has_key-Extended :
      (k j : ℕ) (old points : List (TracePoint F)) (d d' : List (ℕ × List (TracePoint F)))
      → Extended k old points d d'
      → has_key j d ≡ true
      → has_key j d' ≡ true
  unfolding Extended
  has_key-Extended k j old points d d' h there = elim (Bool-cases (j == k)) [
    | inl e ↦ rw (h j, has_key, e) refl
    | inr e ↦ rw (h j, has_key, e) there
  ]

  HasKeys-Extended :
      (records : List (TimeIdMapping F)) (k : ℕ) (old points : List (TracePoint F))
      (d d' : List (ℕ × List (TracePoint F)))
      → Extended k old points d d'
      → HasKeys records d
      → HasKeys records d'
  HasKeys-Extended [] k old points d d' h keys = tt
  HasKeys-Extended (r ∷ records) k old points d d' h keys = (
    has_key-Extended k r.sumo_id old points d d' h keys.0,
    HasKeys-Extended records k old points d d' h keys.1,
  )

  entry :
      (fcd : List (TimeStep F)) (r : TimeIdMapping F) (records : List (TimeIdMapping F))
      (old : List (TracePoint F)) (d d1 d' : List (ℕ × List (TracePoint F))) (j : ℕ)
      → lookup r.sumo_id d ≡ some old
      → lookup j d1 ≡ (if j == r.sumo_id then some (old ++ points_of r.sumo_id fcd) else lookup j d)
      → lookup j d' ≡ grown (copies (count j records) (points_of j fcd)) (lookup j d1)
      → lookup j d' ≡ grown (copies (count j (r ∷ records)) (points_of j fcd)) (lookup j d)
  entry fcd r records old d d1 d' j found now later = elim (Bool-cases (j == r.sumo_id)) [
    | inl e ↦
        let same : j ≡ r.sumo_id = (==_iff j r.sumo_id).0 e in
        let was : lookup j d ≡ some old = ap (λ i. lookup i d) same ∙ found in
        let is : lookup j d1 ≡ some (old ++ points_of j fcd) =
          now ∙ (rw e (ap (λ i. some (old ++ points_of i fcd)) (sym same))) in
        rw (e, was)
          (later
            ∙ (ap (grown (copies (count j records) (points_of j fcd))) is
                ∙ ap some (
                    append_assoc old (points_of j fcd)
                      (copies (count j records) (points_of j fcd)))))
    | inr e ↦
        let is : lookup j d1 ≡ lookup j d = now ∙ rw e refl in
        rw e (later ∙ ap (grown (copies (count j records) (points_of j fcd))) is)
  ]

  -- Each record of a pedestrian adds all its points once more.
  pub collect-copies :
      (fcd : List (TimeStep F)) (records : List (TimeIdMapping F))
      (d : List (ℕ × List (TracePoint F)))
      → HasKeys records d
      → (d' : List (ℕ × List (TracePoint F))) × (collect fcd records d ≡ ok d')
        × ((j : ℕ) → lookup j d' ≡ grown (copies (count j records) (points_of j fcd)) (lookup j d))
  unfolding collect Extended
  collect-copies fcd [] d keys = (d, refl, λ j. nothing_more (lookup j d))
    where
      nothing_more : (o : Option (List (TracePoint F))) → o ≡ grown [] o
      nothing_more none = refl
      nothing_more (some old) = rw append-nil refl
  collect-copies fcd (r ∷ records) d keys =
      let (old, found) = some_of_has_key r.sumo_id d keys.0 in
      let (d1, extended, now) =
        extend_at-Extended r.sumo_id old (points_of r.sumo_id fcd) d found in
      let (d', rest, later) =
        collect-copies fcd records d1
          (HasKeys-Extended records r.sumo_id old (points_of r.sumo_id fcd) d d1 now keys.1) in
      (d', rw extended rest, λ j. entry fcd r records old d d1 d' j found (now j) (later j))
