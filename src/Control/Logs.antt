-- ===== src/Control/Logs.antt =====
-- What holds of the calls that a chain of methods makes, and of the object that it leaves: shared by
-- the proofs on all controllers.
use crownet.Prelude.{ℕ, suc, ◌+◌, ◌≡◌, refl, List, [], ◌∷◌, ◌++◌, Result, ok, err, arith, length}
use crownet.Control.{Call, forward_time, M, after, each}

abbrev pub All {ℓ κ} : {A : Type ℓ} → (A → Type κ) → List A → Type κ
All P [] = Unit
All P (x ∷ xs) = P x × All P xs

pub All-append {ℓ κ} :
    {A : Type ℓ} (P : A → Type κ) (xs ys : List A) → All P xs → All P ys → All P (xs ++ ys)
All-append P [] ys h k = k
All-append P (x ∷ xs) ys h k = (h.0, All-append P xs ys h.1 k)

-- The object keeps an invariant, and every call is allowed.
abbrev pub Keeps :
    {D S A : Type 0} → (S → Type 0) → (Call D → Type 0) → Result A × S × List (Call D) → Type 0
Keeps Inv P made = Inv made.1 × All P made.2

pub after-Keeps :
    {D S A B : Type 0} (Inv : S → Type 0) (P : Call D → Type 0)
    (made : Result A × S × List (Call D)) (next : A → M D S B)
    → Keeps Inv P made
    → ((a : A) (s : S) → Inv s → Keeps Inv P (next a s))
    → Keeps Inv P (after made next)
after-Keeps Inv P (ok a, s, calls) next (keeps, allowed) rest =
    ((rest a s keeps).0, All-append P calls (next a s).2 allowed (rest a s keeps).1)
after-Keeps Inv P (err raised, s, calls) next h rest = h

pub each-Keeps :
    {D S A : Type 0} (Inv : S → Type 0) (P : Call D → Type 0) (f : A → M D S (Unit {0}))
    → ((x : A) (s : S) → Inv s → Keeps Inv P (f x s))
    → (xs : List A) (s : S) → Inv s
    → Keeps Inv P (each f xs s)
each-Keeps Inv P f one [] s h = (h, tt)
each-Keeps Inv P f one (x ∷ xs) s h =
    after-Keeps Inv P (f x s) (λ _. each f xs) (one x s h) λ _ t k. each-Keeps Inv P f one xs t k

-- The method returned, in an object that keeps an invariant.
abbrev pub Returns : {D S A : Type 0} → (S → Type 0) → Result A × S × List (Call D) → Type 0
Returns Inv (ok a, s, calls) = Inv s
Returns Inv (err raised, s, calls) = ⊥

-- How often the time stepper is told to go on.
abbrev pub forwards : {D : Type 0} → List (Call D) → ℕ
forwards [] = 0
forwards (forward_time ∷ calls) = suc (forwards calls)
forwards (_ ∷ calls) = forwards calls

pub forwards-append :
    {D : Type 0} (xs ys : List (Call D)) → forwards (xs ++ ys) ≡ forwards xs + forwards ys
forwards-append [] ys = omega arith
forwards-append (forward_time ∷ xs) ys = omega (arith, forwards-append xs ys)
forwards-append (_ ∷ xs) ys = forwards-append xs ys

-- A step that returns and goes on once, done for each item, returns and goes on once for each.
pub each-forwards :
    {D S A : Type 0} (Inv : S → Type 0) (f : A → M D S (Unit {0}))
    → ((x : A) (s : S) → Inv s → Returns Inv (f x s) × (forwards (f x s).2 ≡ 1))
    → (xs : List A) (s : S) → Inv s
    → Returns Inv (each f xs s) × (forwards (each f xs s).2 ≡ length xs)
each-forwards Inv f one [] s h = (h, refl)
each-forwards {D} {S} {A} Inv f one (x ∷ xs) s h =
    go (f x s) (one x s h) λ t k. each-forwards Inv f one xs t k
  where
    go :
        (made : Result (Unit {0}) × S × List (Call D))
        → Returns Inv made × (forwards made.2 ≡ 1)
        → ((t : S) → Inv t → Returns Inv (each f xs t) × (forwards (each f xs t).2 ≡ length xs))
        → Returns Inv (after made (λ _. each f xs))
          × (forwards (after made (λ _. each f xs)).2 ≡ suc (length xs))
    go (ok a, t, calls) (k, once) rest = (
      returns (each f xs t) (rest t k).0,
      omega (arith, once, (rest t k).1, forwards-append calls (each f xs t).2),
    )
      where
        returns :
            (made : Result (Unit {0}) × S × List (Call D))
            → Returns Inv made
            → Returns Inv ((made.0, made.1, calls ++ made.2))
        returns (ok b, u, more) q = q
        returns (err raised, u, more) q = q
    go (err raised, t, calls) (k, once) rest = absurd k
