-- ===== src/Docker/Ptrace.antt =====
-- `RoverClient.check_ptrace` of docker_rover.py: what it prints for the output of sysctl, which is a
-- parameter, as is the reading of an integer.
use crownet.Prelude.{
  ℕ, zero, suc, ◌≡◌, ◌≢◌, refl, true, false, Option, none, some, List, [], ◌∷◌, ◌++◌, if◌then◌else◌,
  ◌==◌, Text, text, starts_with, length, Result, ok, err, unbound_local_error,
}

pub data SysctlOutput : Type 0 where
  timeout_expired undecodable : SysctlOutput
  output : Text → SysctlOutput

pub data Printed : Type 0 where
  nothing ptrace_warning timeout_error cannot_parse expected_integer : Printed

-- `ret.split(" = ")`, from a word that has begun and a number of characters to pass over.
unfoldable pub split_equals : Text → ℕ → Text → List Text
split_equals word skip [] = word ∷ []
split_equals word (suc skip) (c ∷ s) = split_equals word skip s
split_equals word zero (c ∷ s) = elim (starts_with (c ∷ s) (text " = ")) [
  | true ↦ word ∷ split_equals [] 2 s
  | false ↦ split_equals (word ++ (c ∷ [])) zero s
]

-- What follows the split: `key, val = ...` raises `ValueError` unless there are two parts, and its
-- handler reads `key` and `val`.
pub print_for : (Text → Option ℕ) → List Text → Result Printed
print_for int (key ∷ val ∷ []) = elim (int val) [
  | none ↦ ok expected_integer
  | some n ↦ if n == 1 then ok ptrace_warning else ok nothing
]
print_for int [] = err unbound_local_error
print_for int (key ∷ []) = err unbound_local_error
print_for int (key ∷ val ∷ w ∷ ws) = err unbound_local_error

pub check_ptrace : (Text → Option ℕ) → SysctlOutput → Result Printed
unfolding print_for split_equals
check_ptrace int timeout_expired = ok timeout_error
check_ptrace int undecodable = ok cannot_parse
check_ptrace int (output ret) = print_for int (split_equals [] 0 ret)

print_for_unbound :
    (int : Text → Option ℕ) (parts : List Text)
    → length parts ≢ 2
    → print_for int parts ≡ err unbound_local_error
unfolding print_for
print_for_unbound int [] h = refl
print_for_unbound int (key ∷ []) h = refl
print_for_unbound int (key ∷ val ∷ []) h = elim (h refl) [ ]
print_for_unbound int (key ∷ val ∷ w ∷ ws) h = refl

-- Whatever sysctl puts out that is not two parts around one ` = `, the handler that should print a
-- note raises `UnboundLocalError` itself.
pub check_ptrace_unbound :
    (int : Text → Option ℕ) (ret : Text)
    → length (split_equals [] 0 ret) ≢ 2
    → check_ptrace int (output ret) ≡ err unbound_local_error
unfolding check_ptrace
check_ptrace_unbound int ret h = print_for_unbound int (split_equals [] 0 ret) h

-- The usual output is read.
usual_output :
    check_ptrace (λ s. some 1) (output (text "kernel.yama.ptrace_scope = 1")) ≡ ok ptrace_warning
unfolding check_ptrace print_for split_equals
usual_output = refl
