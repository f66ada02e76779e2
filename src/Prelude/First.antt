-- ===== src/Prelude/First.antt =====
-- The first number that passes a test: what a search from the start of a list finds.
use Prim.Native.Nat.{ℕ, zero, suc, ◌<◌}
use mathlib.Core.Path.{◌≡◌}
use mathlib.Core.Bool.{Bool, true, false}
use mathlib.Core.Option.{Option, none, some}
use native.Mathlib.Omega.{arith}

abbrev pub FirstHit : (ℕ → Bool) → ℕ → Option ℕ → Type 0
FirstHit test l none = (i : ℕ) → i < l → test i ≡ false
FirstHit test l (some k) = (k < l) × (test k ≡ true) × ((i : ℕ) → i < k → test i ≡ false)

FirstHit-below :
    (test : ℕ → Bool) (k i : ℕ)
    → test 0 ≡ false
    → ((j : ℕ) → j < k → test (suc j) ≡ false)
    → i < suc k
    → test i ≡ false
FirstHit-below test k zero now later h = now
FirstHit-below test k (suc i) now later h = later i (omega arith)

-- If number 0 does not pass, the search goes on with the numbers that follow.
pub FirstHit-suc-none :
    (test : ℕ → Bool) (l : ℕ)
    → test 0 ≡ false
    → FirstHit (λ i. test (suc i)) l none
    → FirstHit test (suc l) none
FirstHit-suc-none test l now h = λ i b. FirstHit-below test l i now h b

pub FirstHit-suc-some :
    (test : ℕ → Bool) (l k : ℕ)
    → test 0 ≡ false
    → FirstHit (λ i. test (suc i)) l (some k)
    → FirstHit test (suc l) (some (suc k))
FirstHit-suc-some test l k now (inside, passes, before) =
    (omega arith, passes, λ i b. FirstHit-below test k i now before b)
