-- ===== src/Prelude/Results.antt =====
-- Python's exceptions as values: the result of a call, and of a method that changes its object.
use mathlib.Core.Path.{◌≡◌, refl}
use mathlib.Core.Option.{Option, none, some}

-- `out_of_fuel` is the model's own: a loop that did not end in the rounds that it was given.
pub data Exception : Type 0 where
  index_error value_error key_error type_error attribute_error unbound_local_error : Exception
  zero_division_error recursion_error name_error not_implemented_error system_exit out_of_fuel :
      Exception
  sql_empty_result file_not_found_error environment_error assertion_error timeout_expired :
      Exception

pub data Result {ℓ} (V : Type ℓ) : Type ℓ where
  ok : V → Result V
  err : Exception → Result V

infixl 5 ◌>>=◌ ◌>>◌
abbrev pub ◌>>=◌ {ℓ κ} : {V : Type ℓ} {W : Type κ} → Result V → (V → Result W) → Result W
m >>= next = elim m [ ok v ↦ next v | err raised ↦ err raised ]

abbrev pub ◌>>◌ {ℓ κ} : {V : Type ℓ} {W : Type κ} → Result V → Result W → Result W
first >> second = first >>= λ _. second

abbrev pub or_raise {ℓ} : {A : Type ℓ} → Option A → Exception → Result A
or_raise none e = err e
or_raise (some a) e = ok a

-- Of a chain that returned, the first step returned too.
pub returned {ℓ κ} :
    {V : Type ℓ} {W : Type κ} (m : Result V) (next : V → Result W) (w : W)
    → (m >>= next) ≡ ok w
    → (v : V) × (m ≡ ok v) × (next v ≡ ok w)
returned (err raised) next w h = cc
returned (ok v) next w h = (v, refl, h)

pub ok_inj {ℓ} : {V : Type ℓ} (v w : V) → ok v ≡ ok w → v ≡ w
ok_inj v w h = cc

-- A chain of three steps, nested to the right, and the steps after a step replaced by equal ones.
pub >>=-regroup {ℓ} :
    {A B C : Type ℓ} (m : Result A) (f : A → Result B) (g : B → Result C) (h : A → Result C)
    → ((a : A) → (f a >>= g) ≡ h a)
    → (m >>= f >>= g) ≡ (m >>= h)
>>=-regroup (ok a) f g h same = same a
>>=-regroup (err raised) f g h same = refl
