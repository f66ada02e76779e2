-- ===== src/BonnMotion/Ends.antt =====
-- rndBonnMotion.py: when the loop that draws line numbers ends.
use mathlib.Core.Path.{subst}
use crownet.Prelude.{
  ℕ, zero, suc, ◌+◌, ◌*◌, ◌≤◌, ◌<◌, ◌≡◌, refl, inl, inr, ◌⊎◌, ltb, ltb→lt, lt→ltb, ==_iff, true,
  false, Bool-cases, List, [], ◌∷◌, ◌++◌, add, nat_eq, contains, IsSetList, length-le_of_subset,
  length, length-append, range_from, Result, ok, err, out_of_fuel, arith,
}
use crownet.BonnMotion.{Random, draw_lines}
use crownet.BonnMotion.Draws.{
  IsDraw, IsDraw-add, length-IsDraw, length-range_from, lt_of_contains-range_from,
}

contains-range_from_below : (start n x : ℕ) → x < start → contains (range_from start n) x ≡ false
contains-range_from_below start zero x h = refl
contains-range_from_below start (suc n) x h =
    ground (arith, ==_iff x start, contains-range_from_below (suc start) n x)

IsSetList-range_from : (start n : ℕ) → IsSetList (range_from start n)
IsSetList-range_from start zero = tt
IsSetList-range_from start (suc n) = (
  contains-range_from_below (suc start) n start (omega arith),
  IsSetList-range_from (suc start) n,
)

-- A number below the bound that is not in the list, if not all are.
absent :
    (n : ℕ) (xs : List ℕ)
    → ((x : ℕ) → x < n → contains xs x ≡ true) ⊎ ((v : ℕ) × (v < n) × (contains xs v ≡ false))
absent zero xs = inl (λ x h. elim h [ ])
absent (suc n) xs = elim (Bool-cases (contains xs n)) [
  | inr out ↦ inr (n, omega arith, out)
  | inl there ↦ elim (absent n xs) [
    | inr (v, lt, out) ↦ inr (v, omega arith, out)
    | inl all ↦ inl (λ x h. below all there x h)
  ]
]
  where
    below :
        ((x : ℕ) → x < n → contains xs x ≡ true)
        → contains xs n ≡ true
        → (x : ℕ) → x < suc n
        → contains xs x ≡ true
    below all there x h = elim (Bool-cases (nat_eq.beq x n)) [
      | inl same ↦ rw ((==_iff x n).0 same) there
      | inr other ↦ all x (ground (arith, ==_iff x n))
    ]

undrawn : (n : ℕ) (xs : List ℕ) → length xs < n → (v : ℕ) × (v < n) × (contains xs v ≡ false)
undrawn n xs h = elim (absent n xs) [
  | inr found ↦ found
  | inl all ↦
      let fits : length (range_from 0 n) ≤ length xs =
        length-le_of_subset (range_from 0 n) xs (IsSetList-range_from 0 n)
          λ x m. all x (omega (arith, lt_of_contains-range_from 0 n x m)) in
      absurd (omega (arith, fits, length-range_from 0 n))
]

-- One of the next `w` draws is `v`.
abbrev pub Hits : (R : Random) → ℕ → ℕ → ℕ → R.Generator → Type 0
Hits R m v zero g = ⊥
Hits R m v (suc w) g = ((R.randint 0 m g).0 ≡ v) ⊎ Hits R m v w (R.randint 0 m g).1

-- `randint` keeps to its range, and comes round to each number of it within `w` draws.
pub record IsFair (R : Random) (m w : ℕ) : Type 0 where
  pub in_range : (g : R.Generator) → (R.randint 0 m g).0 ≤ m
  pub comes_round : (v : ℕ) → v ≤ m → (g : R.Generator) → Hits R m v w g

-- The loop returned a draw of the size that was asked for.
abbrev pub Drew : ℕ → ℕ → Result (List ℕ) → Type 0
Drew lines n made = (draw : List ℕ) × (made ≡ ok draw) × IsDraw lines draw × (length draw ≡ n)

module _ (R : Random) (m w n : ℕ) (fair : IsFair R m w) where
  done :
      (fuel : ℕ) (g : R.Generator) (draw : List ℕ)
      → 0 < fuel
      → IsDraw (suc m) draw
      → length draw ≡ n
      → Drew (suc m) n (draw_lines R fuel n (suc m) g draw)
  unfolding draw_lines
  done zero g draw pos h e = absurd (omega arith)
  done (suc fuel) g draw pos h e = (draw, rw (enough (length draw) n e) refl, h, e)
    where
      enough : (a b : ℕ) → a ≡ b → ltb a b ≡ false
      enough a b q = ground arith

  -- Until a number that has not been drawn comes round, the draw grows or stays.
  waits :
      (k : ℕ)
      → ((fuel : ℕ) (g : R.Generator) (draw : List ℕ)
          → IsDraw (suc m) draw
          → length draw ≤ n
          → n ≤ length draw + k
          → w * k < fuel
          → Drew (suc m) n (draw_lines R fuel n (suc m) g draw))
      → (left fuel : ℕ) (g : R.Generator) (draw : List ℕ) (v : ℕ) → Hits R m v left g
      → contains draw v ≡ false
      → IsDraw (suc m) draw
      → length draw < n
      → n ≤ length draw + suc k
      → left + w * k < fuel
      → Drew (suc m) n (draw_lines R fuel n (suc m) g draw)
  unfolding draw_lines
  waits k grown zero fuel g draw v hit out h lt le enough = absurd hit
  waits k grown (suc left) zero g draw v hit out h lt le enough = absurd (omega arith)
  waits k grown (suc left) (suc fuel) g draw v hit out h lt le enough =
      elim (Bool-cases (contains draw x)) [
        | inl old ↦
            rw (lt→ltb (length draw) n lt, old, add)
              (waits k grown left fuel g' draw v (later hit old) out h lt le (omega arith))
        | inr new ↦
            rw (lt→ltb (length draw) n lt, new, add)
              (grown fuel g' (draw ++ (x ∷ []))
                (subst (λ d. IsDraw (suc m) d) (added new)
                  (IsDraw-add (suc m) x draw h (omega (arith, fair.in_range g))))
                (omega (arith, length-append draw (x ∷ [])))
                (omega (arith, length-append draw (x ∷ []))) (omega arith))
      ]
    where
      x : ℕ
      x = (R.randint 0 m g).0

      g' : R.Generator
      g' = (R.randint 0 m g).1

      added : contains draw x ≡ false → add draw x ≡ draw ++ (x ∷ [])
      added new = rw (new, add) refl

      later : Hits R m v (suc left) g → contains draw x ≡ true → Hits R m v left g'
      later (inl same) old = absurd (ground (arith, same, old, out))
      later (inr more) old = more

  pub draw_lines_ends :
      (k fuel : ℕ) (g : R.Generator) (draw : List ℕ)
      → n ≤ suc m
      → IsDraw (suc m) draw
      → length draw ≤ n
      → n ≤ length draw + k
      → w * k < fuel
      → Drew (suc m) n (draw_lines R fuel n (suc m) g draw)
  draw_lines_ends zero fuel g draw fits h le ge enough =
      done fuel g draw (omega arith) h (omega arith)
  draw_lines_ends (suc k) fuel g draw fits h le ge enough =
      elim (Bool-cases (ltb (length draw) n)) [
        | inr full ↦ done fuel g draw (grind arith) h (ground arith)
        | inl small ↦
            let (v, lt, out) = undrawn (suc m) draw (omega (arith, ltb→lt (length draw) n small)) in
            waits k (λ f g1 d h1 le1 ge1 e1. draw_lines_ends k f g1 d fits h1 le1 ge1 e1) w fuel g
              draw v (fair.comes_round v (omega arith) g) out h (ltb→lt (length draw) n small) ge
              (grind arith)
      ]

module _ (R : Random) (m n : ℕ) where
  -- With more lines asked for than there are, the loop never ends: however many rounds it is given, they
  -- are too few.
  pub draw_lines_endless :
      (in_range : (g : R.Generator) → (R.randint 0 m g).0 ≤ m)
      → suc m < n
      → (fuel : ℕ) (g : R.Generator) (draw : List ℕ) → IsDraw (suc m) draw
      → draw_lines R fuel n (suc m) g draw ≡ err out_of_fuel
  unfolding draw_lines
  draw_lines_endless in_range large zero g draw h = refl
  draw_lines_endless in_range large (suc fuel) g draw h =
      rw (lt→ltb (length draw) n (omega (arith, length-IsDraw (suc m) draw h))) (
        draw_lines_endless in_range large fuel (R.randint 0 m g).1 (add draw (R.randint 0 m g).0)
          (IsDraw-add (suc m) (R.randint 0 m g).0 draw h (omega (arith, in_range g))))
