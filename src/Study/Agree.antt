-- ===== src/Study/Agree.antt =====
-- study.py: two results that are the same, or two exceptions that belong together.
use crownet.Prelude.{
  ℕ, zero, suc, ◌≡◌, ◌⊎◌, inl, inr, refl, ◌∙◌, ap, List, [], ◌∷◌, Result, ok, err, Exception, ◌>>=◌,
}
use crownet.Study.{in_order, failures, arrived, starmap}

-- Equal results, or equal exceptions, or exceptions that are related.
abbrev pub Agree : {A : Type 0} → (Exception → Exception → Type 0) → Result A → Result A → Type 0
Agree Related (ok a) (ok b) = a ≡ b
Agree Related (ok a) (err e) = ⊥
Agree Related (err e) (ok b) = ⊥
Agree Related (err e) (err e') = (e ≡ e') ⊎ Related e e'

-- One of some calls raises an exception.
abbrev pub RaisesIn : {A B : Type 0} → (A → Result B) → List A → Exception → Type 0
RaisesIn f [] e = ⊥
RaisesIn f (a ∷ args) e = (f a ≡ err e) ⊎ RaisesIn f args e

pub Agree-refl :
    {A : Type 0} (Related : Exception → Exception → Type 0) (r : Result A) → Agree Related r r
Agree-refl Related (ok a) = refl
Agree-refl Related (err e) = inl refl

pub Agree-bind :
    {A B : Type 0} (Related : Exception → Exception → Type 0) (r s : Result A) (f g : A → Result B)
    → Agree Related r s
    → ((a : A) → Agree Related (f a) (g a))
    → Agree Related (r >>= f) (s >>= g)
Agree-bind Related (ok a) (ok b) f g same next = rw (← same) (next a)
Agree-bind Related (ok a) (err e) f g same next = elim same [ ]
Agree-bind Related (err e) (ok b) f g same next = elim same [ ]
Agree-bind Related (err e) (err e') f g same next = same

err_inj : {A : Type 0} (e1 e2 : Exception) (r : Result A) → r ≡ err e1 → r ≡ err e2 → e1 ≡ e2
err_inj e1 e2 (ok a) h h' = cc
err_inj e1 e2 (err e) h h' = cc

-- Exceptions that are related in one way are related in another.
pub Agree-weaken :
    {A : Type 0} (Related Related' : Exception → Exception → Type 0) (r s : Result A)
    → ((e e' : Exception) → Related e e' → Related' e e')
    → Agree Related r s
    → Agree Related' r s
Agree-weaken Related Related' (ok a) (ok b) weaker same = same
Agree-weaken Related Related' (ok a) (err e) weaker same = elim same [ ]
Agree-weaken Related Related' (err e) (ok b) weaker same = elim same [ ]
Agree-weaken Related Related' (err e) (err e') weaker (inl same) = inl same
Agree-weaken Related Related' (err e) (err e') weaker (inr related) = inr (weaker e e' related)

in_order-RaisesIn :
    {A B : Type 0} (f : A → Result B) (args : List A) (e : Exception)
    → in_order f args ≡ err e
    → RaisesIn f args e
in_order-RaisesIn f [] e h = cc
in_order-RaisesIn {B} f (a ∷ args) e h =
    go (f a) refl (in_order f args) (in_order-RaisesIn f args e) h
  where
    go :
        (r : Result B)
        → f a ≡ r
        → (rest : Result (List B)) → (rest ≡ err e → RaisesIn f args e)
        → (r >>= λ b. rest >>= λ bs. ok (b ∷ bs)) ≡ err e
        → RaisesIn f (a ∷ args) e
    go (err raised) called rest ih h =
        inl (called ∙ ap err (err_inj {A = List B} raised e (err raised) refl h))
    go (ok b) called (ok bs) ih h = cc
    go (ok b) called (err raised) ih h = inr (ih h)

-- What holds of the exceptions of all calls and of one more holds of the one that arrives.
arrived_lem :
    {A B : Type 0} (P : Exception → Type 0) (f : A → Result B) (n : ℕ) (args : List A)
    (first : Exception)
    → ((e : Exception) → RaisesIn f args e → P e)
    → P first
    → P (arrived n (failures f args) first)
arrived_lem P f n [] first each one = one
arrived_lem {B} P f n (a ∷ args) first each one =
    go n (f a) refl λ m. arrived_lem P f m args first (λ e h. each e (inr h)) one
  where
    go :
        (n : ℕ) (r : Result B)
        → f a ≡ r
        → ((m : ℕ) → P (arrived m (failures f args) first))
        → P (
            arrived n
              (elim r [ ok b ↦ failures f args | err raised ↦ raised ∷ failures f args ])
              first)
    go n (ok b) called ih = ih n
    go zero (err raised) called ih = each raised (inl called)
    go (suc n) (err raised) called ih = ih n

-- The pool returns what the calls in order return, and if it raises, so do they, each an exception of
-- one of the calls.
pub starmap-Agree :
    {A B : Type 0} (n : ℕ) (f : A → Result B) (args : List A)
    → Agree (λ e e'. RaisesIn f args e × RaisesIn f args e') (starmap n f args) (in_order f args)
unfolding starmap
starmap-Agree {B} n f args = go (in_order f args) refl
  where
    go :
        (r : Result (List B))
        → in_order f args ≡ r
        → Agree
            (λ e e'. RaisesIn f args e × RaisesIn f args e')
            (elim r [
              | ok results ↦ ok results
              | err first ↦ err (arrived n (failures f args) first)
            ])
            r
    go (ok results) ran = refl
    go (err first) ran =
        let one = in_order-RaisesIn f args first ran in
        inr (arrived_lem (RaisesIn f args) f n args first (λ e h. h) one, one)
