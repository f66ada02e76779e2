-- ===== src/Prelude/Decimal.antt =====
-- Python's `str` of a number: its decimal digits. Different numbers have different texts.
use Prim.Native.Nat.{ℕ, zero, suc, ◌+◌, ◌*◌, ◌-◌, ◌/◌, ◌%◌, ◌≤◌, ◌<◌}
use mathlib.Core.Path.{◌≡◌, ◌∙◌, refl, ap, sym}
use mathlib.Core.Logic.{◌≢◌, inl, inr}
use mathlib.Core.Bool.{true, false}
use mathlib.Core.List.{[], ◌∷◌, ◌++◌}
use native.Mathlib.Omega.{arith}
use crownet.Prelude.Tests.{ltb, Bool-cases}
use crownet.Prelude.Strings.{Text}

-- The fuel is the number and one more; it falls faster.
decimal_from : ℕ → ℕ → Text
decimal_from zero n = []
decimal_from (suc fuel) n = elim (ltb n 10) [
  | true ↦ (n + b'0') ∷ []
  | false ↦ decimal_from fuel (n / 10) ++ ((n % 10 + b'0') ∷ [])
]

unfoldable pub decimal : ℕ → Text
unfolding decimal_from
decimal n = decimal_from (suc n) n

-- The number that a row of digits stands for, after a number read before.
abbrev pub digits_value : ℕ → Text → ℕ
digits_value acc [] = acc
digits_value acc (c ∷ s) = digits_value (acc * 10 + (c - b'0')) s

digits_value-append :
    (acc c : ℕ) (s : Text) → digits_value acc (s ++ (c ∷ [])) ≡ digits_value acc s * 10 + (c - b'0')
digits_value-append acc c [] = refl
digits_value-append acc c (d ∷ s) = digits_value-append (acc * 10 + (d - b'0')) c s

digits_value-decimal_from : (fuel n : ℕ) → n < fuel → digits_value 0 (decimal_from fuel n) ≡ n
unfolding decimal_from
digits_value-decimal_from zero n h = elim h [ ]
digits_value-decimal_from (suc fuel) n h = elim (Bool-cases (ltb n 10)) [
  | inl small ↦ rw (small, decimal_from) (omega arith)
  | inr large ↦
      rw (large, decimal_from)
        (digits_value-append 0 (n % 10 + b'0') (decimal_from fuel (n / 10))
          ∙ omega (arith, digits_value-decimal_from fuel (n / 10) (ground arith)))
]

pub digits_value-decimal : (n : ℕ) → digits_value 0 (decimal n) ≡ n
unfolding decimal
digits_value-decimal n = digits_value-decimal_from (suc n) n (omega arith)

pub decimal-injective : (m n : ℕ) → decimal m ≡ decimal n → m ≡ n
decimal-injective m n h =
    sym (digits_value-decimal m) ∙ (ap (digits_value 0) h ∙ digits_value-decimal n)

pub decimal-ne_nil : (n : ℕ) → decimal n ≢ []
unfolding decimal decimal_from
decimal-ne_nil zero h = cc
decimal-ne_nil (suc n) h =
    let none_left : digits_value 0 (decimal (suc n)) ≡ 0 = ap (digits_value 0) h in
    omega (arith, digits_value-decimal (suc n))

-- Every character of a text is a digit.
abbrev pub IsDigits : Text → Type 0
IsDigits [] = Unit
IsDigits (c ∷ s) = ((b'0' ≤ c) × (c ≤ b'9')) × IsDigits s

IsDigits-append :
    (s : Text) (c : ℕ) → IsDigits s → (b'0' ≤ c) × (c ≤ b'9') → IsDigits (s ++ (c ∷ []))
IsDigits-append [] c h le = (le, tt)
IsDigits-append (d ∷ s) c h le = (h.0, IsDigits-append s c h.1 le)

decimal_from-IsDigits : (fuel n : ℕ) → IsDigits (decimal_from fuel n)
unfolding decimal_from
decimal_from-IsDigits zero n = tt
decimal_from-IsDigits (suc fuel) n = elim (Bool-cases (ltb n 10)) [
  | inl small ↦ rw (small, decimal_from) ((omega arith, ground (arith, small)), tt)
  | inr large ↦
      rw (large, decimal_from)
        (IsDigits-append (decimal_from fuel (n / 10)) (n % 10 + b'0')
          (decimal_from-IsDigits fuel (n / 10)) (omega arith, omega arith))
]

pub decimal-IsDigits : (n : ℕ) → IsDigits (decimal n)
unfolding decimal
decimal-IsDigits n = decimal_from-IsDigits (suc n) n
