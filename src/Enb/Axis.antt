-- ===== src/Enb/Axis.antt =====
-- The tests of `neighbor_index` along one axis, by where one coordinate lies relative to another.
use mathlib.Core.Logic.{dite}
use native.Mathlib.Decide.{ℕ_discrete}
use crownet.Prelude.{
  ℕ, ◌+◌, ◌-◌, ◌<◌, ◌≡◌, refl, ◌⊎◌, Bool, true, false, not, ◌&&◌, ◌||◌, ltb, leb, ◌==◌, arith,
}

-- Where a coordinate lies relative to another.
pub data Offset (x u : ℕ) : Type 0 where
  before : u + 1 ≡ x → Offset x u
  same : u ≡ x → Offset x u
  after : u ≡ x + 1 → Offset x u
  apart : (u + 1 < x) ⊎ (x + 1 < u) → Offset x u

pub offset : (x u : ℕ) → Offset x u
offset x u =
    dite (ℕ_discrete (u + 1) x) before λ p.
      dite (ℕ_discrete u x) same λ q. dite (ℕ_discrete u (x + 1)) after λ r. apart (omega arith)

module _ {x u : ℕ} where
  abbrev pub is_before : Offset x u → Bool
  is_before (before e) = true
  is_before _ = false

  abbrev pub is_same : Offset x u → Bool
  is_same (same e) = true
  is_same _ = false

  abbrev pub is_after : Offset x u → Bool
  is_after (after e) = true
  is_after _ = false

  abbrev pub is_near : Offset x u → Bool
  is_near (apart e) = false
  is_near _ = true

  -- The tests that `neighbor_index` makes along one axis, and what they tell.
  pub test_before : (o : Offset x u) → (leb 1 x && u == x - 1) ≡ is_before o
  test_before (before e) = ground arith
  test_before (same e) = ground arith
  test_before (after e) = ground arith
  test_before (apart e) = ground arith

  pub test_same : (o : Offset x u) → (u == x) ≡ is_same o
  test_same (before e) = ground arith
  test_same (same e) = ground arith
  test_same (after e) = ground arith
  test_same (apart e) = ground arith

  pub test_after : (w : ℕ) (o : Offset x u) → u < w → (ltb (x + 1) w && u == x + 1) ≡ is_after o
  test_after w (before e) h = ground arith
  test_after w (same e) h = ground arith
  test_after w (after e) h = ground arith
  test_after w (apart e) h = ground arith

  pub test_near : (o : Offset x u) → (leb u (x + 1) && leb x (u + 1)) ≡ is_near o
  test_near (before e) = ground arith
  test_near (same e) = ground arith
  test_near (after e) = ground arith
  test_near (apart e) = ground arith

-- The eight directions of `neighbor_index` from where a cell lies, and their meaning.
abbrev pub directions : Bool → Bool → Bool → Bool → Bool → Bool → Bool
directions l c r u m d =
    (l && m)
    || ((r && m) || ((c && u) || ((c && d) || ((l && d) || ((l && u) || ((r && d) || (r && u)))))))

pub directions-near :
    {x u y v : ℕ} (o : Offset x u) (q : Offset y v)
    → directions (is_before o) (is_same o) (is_after o) (is_before q) (is_same q) (is_after q)
      ≡ (is_near o && is_near q && not (is_same o && is_same q))
directions-near (before _) (before _) = refl
directions-near (before _) (same _) = refl
directions-near (before _) (after _) = refl
directions-near (before _) (apart _) = refl
directions-near (same _) (before _) = refl
directions-near (same _) (same _) = refl
directions-near (same _) (after _) = refl
directions-near (same _) (apart _) = refl
directions-near (after _) (before _) = refl
directions-near (after _) (same _) = refl
directions-near (after _) (after _) = refl
directions-near (after _) (apart _) = refl
directions-near (apart _) (before _) = refl
directions-near (apart _) _ = refl

pub regroup : (a b p q : Bool) → ((a && b) && (p && q)) ≡ ((a && p) && (b && q))
regroup true true p q = refl
regroup true false true q = refl
regroup true false false q = refl
regroup false b p q = refl

pub regroup_left : (a p q : Bool) → (a && (p && q)) ≡ ((a && p) && q)
regroup_left true p q = refl
regroup_left false p q = refl

pub regroup_right : (b p q : Bool) → (b && (p && q)) ≡ (p && (b && q))
regroup_right true p q = refl
regroup_right false true q = refl
regroup_right false false q = refl
