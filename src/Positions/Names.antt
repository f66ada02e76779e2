-- ===== src/Positions/Names.antt =====
-- mf_stationary_m_single_cell.py: the names of files of positions.
use crownet.Prelude.{
  ℕ, suc, ◌+◌, ◌≡◌, ◌≢◌, ◌∙◌, refl, ap, true, false, some, [], ◌∷◌, ◌++◌, take, length, Text, text,
  decimal, decimal-ne_nil, digits_value-decimal, IsDigits, decimal-IsDigits, ok, arith,
}
use crownet.Positions.{
  is_digit, span_digits, number, fields, config_match, at_place, removed, trace_of,
}

-- No character of a text is a digit.
abbrev pub HasNoDigits : Text → Type 0
HasNoDigits [] = Unit
HasNoDigits (c ∷ s) = (is_digit c ≡ false) × HasNoDigits s

span_digits-IsDigits :
    (d : Text) (c : ℕ) (rest : Text)
    → IsDigits d
    → is_digit c ≡ false
    → span_digits (d ++ (c ∷ rest)) ≡ (d, c ∷ rest)
span_digits-IsDigits [] c rest h other = rw (other, span_digits) refl
span_digits-IsDigits (a ∷ d) c rest ((low, high), h) other =
    let digit : is_digit a ≡ true = ground (arith, low, high) in
    rw (digit, span_digits-IsDigits d c rest h other) refl

number-decimal :
    (n : ℕ) (c : ℕ) (rest : Text)
    → is_digit c ≡ false
    → number (span_digits (decimal n ++ (c ∷ rest))) ≡ some (decimal n, c ∷ rest)
number-decimal n c rest other =
    rw (span_digits-IsDigits (decimal n) c rest (decimal-IsDigits n) other)
      (go (decimal n) (decimal-ne_nil n))
  where
    go : (d : Text) → d ≢ [] → number (d, c ∷ rest) ≡ some (d, c ∷ rest)
    go [] h = elim (h refl) [ ]
    go (a ∷ d) h = refl

-- The numbers of a name, after what stands before them.
abbrev pub numbers : ℕ → ℕ → ℕ → Text
numbers n r s = decimal n ++ (b'_' ∷ (decimal r ++ (b'_' ∷ (decimal s ++ text ".ini"))))

fields-numbers : (n r s : ℕ) → fields (numbers n r s) ≡ some (decimal n, decimal r, decimal s)
unfolding fields
fields-numbers n r s =
    rw
      (
        number-decimal n b'_' (decimal r ++ (b'_' ∷ (decimal s ++ text ".ini"))) refl,
        number-decimal r b'_' (decimal s ++ text ".ini") refl,
        number-decimal s b'.' (text "ini") refl,
      )
      refl

config_match-fields :
    (k : ℕ) (s : Text) (found : Text × Text × Text)
    → fields s ≡ some found
    → config_match k s ≡ some (k, found)
unfolding config_match fields
config_match-fields k [] found h = cc
config_match-fields k (c ∷ s) found h = ap (λ o. at_place k o (config_match (suc k) s)) h

config_match-skip :
    (k : ℕ) (base rest : Text)
    → HasNoDigits base
    → config_match k (base ++ rest) ≡ config_match (k + length base) rest
unfolding config_match fields
config_match-skip k [] rest h = let z : k + 0 ≡ k = omega arith in rw z refl
config_match-skip k (c ∷ base) rest (other, h) =
    let e : k + suc (length base) ≡ suc k + length base = omega arith in
    rw (other, e) (config_match-skip (suc k) base rest h)

take-length-append : (xs ys : Text) → take (length xs) (xs ++ ys) ≡ xs
take-length-append [] ys = refl
take-length-append (x ∷ xs) ys = ap (λ r. x ∷ r) (take-length-append xs ys)

-- The name of the file of a configuration, its number, run and seed.
abbrev pub file_name : Text → ℕ → ℕ → ℕ → Text
file_name base n r s = base ++ (b'_' ∷ numbers n r s)

config_match-file_name :
    (base : Text) (n r s : ℕ)
    → HasNoDigits base
    → config_match 0 (file_name base n r s)
      ≡ some (suc (length base), (decimal n, decimal r, decimal s))
unfolding config_match fields
config_match-file_name base n r s h =
    let z : 0 + length base ≡ length base = omega arith in
    config_match-skip 0 base (b'_' ∷ numbers n r s) h
    ∙ rw z (
        config_match-fields (suc (length base)) (numbers n r s) (decimal n, decimal r, decimal s)
          (fields-numbers n r s))

-- The name that a configuration without digits, a number, a run and a seed give is read as these again,
-- and the configuration and the number are the id of its group.
pub trace_of-file_name :
    (base : Text) (n r s : ℕ)
    → HasNoDigits base
    → trace_of (file_name base n r s)
      ≡ ok (record {
        num = n;
        run = r;
        seed = s;
        cfg_base = base;
        cfg = removed (text ".ini") 0 (file_name base n r s);
        base_name = file_name base n r s;
        id = base ++ (b'_' ∷ decimal n);
      })
unfolding trace_of
trace_of-file_name base n r s h =
    rw
      (
        config_match-file_name base n r s h,
        digits_value-decimal n,
        digits_value-decimal r,
        digits_value-decimal s,
        take-length-append base (b'_' ∷ numbers n r s),
      )
      refl
