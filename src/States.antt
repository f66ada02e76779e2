-- ===== src/States.antt =====
-- Methods of an object that may raise: the result and the object after the call, also when it raises.
use crownet.Prelude.{◌≡◌, refl, Result, ok, err, Exception}

abbrev pub M : Type 0 → Type 0 → Type 0
M S A = S → Result A × S

abbrev pub after : {S A B : Type 0} → Result A × S → (A → M S B) → Result B × S
after (ok a, s) next = next a s
after (err raised, s) next = (err raised, s)

infixl 5 ◌>>=◌ ◌>>◌
abbrev pub ◌>>=◌ : {S A B : Type 0} → M S A → (A → M S B) → M S B
◌>>=◌ m next s = after (m s) next

abbrev pub ◌>>◌ : {S A B : Type 0} → M S A → M S B → M S B
m >> next = m >>= λ _. next

abbrev pub return : {S A : Type 0} → A → M S A
return a s = (ok a, s)

abbrev pub raising : {S A : Type 0} → Exception → M S A
raising raised s = (err raised, s)

abbrev pub lifted : {S A : Type 0} → Result A → M S A
lifted r s = (r, s)

-- Read a part of the object, and change it.
abbrev pub reading : {S A : Type 0} → (S → A) → M S A
reading f s = (ok (f s), s)

abbrev pub changing : {S : Type 0} → (S → S) → M S (Unit {0})
changing f s = (ok tt, f s)

-- Of a chain that returned, the first step returned too.
pub after-returned :
    {S A B : Type 0} (r : Result A × S) (next : A → M S B) (b : B)
    → (after r next).0 ≡ ok b
    → (a : A) × (r.0 ≡ ok a) × ((next a r.1).0 ≡ ok b) × (after r next ≡ next a r.1)
after-returned (ok a, s) next b h = (a, refl, h, refl)
after-returned (err raised, s) next b h = cc
