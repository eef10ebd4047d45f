-- ===== src/Base/Count.antt =====
-- How often an integer stands in a list, and a list less one of its elements.
use Prim.Native.Nat.{ℕ, ◌+◌, ◌<◌, ◌≤◌}
use mathlib.Core.Path.{◌≡◌, refl}
use mathlib.Core.Logic.{inl, inr}
use mathlib.Core.Bool.{Bool, true, false}
use mathlib.Core.List.{List, [], ◌∷◌, ◌++◌}
use native.Mathlib.Omega.{arith}
use osa_base.Base.Tests.{if◌then◌else◌, Bool-cases}
use osa_base.Base.Lists.{length}
use osa_base.Base.Int.{ℤ, eq_ℤ, eq_ℤ_iff}

abbrev pub one_if : Bool → ℕ
one_if true = 1
one_if false = 0

abbrev pub count : ℤ → List ℤ → ℕ
count i [] = 0
count i (x ∷ xs) = one_if (eq_ℤ i x) + count i xs

-- the first occurrence taken out
abbrev pub erase : ℤ → List ℤ → List ℤ
erase i [] = []
erase i (x ∷ xs) = if eq_ℤ i x then xs else x ∷ erase i xs

pub eq_ℤ_self : (i : ℤ) → eq_ℤ i i ≡ true
eq_ℤ_self i = (eq_ℤ_iff i i).1 refl

pub count-append : (i : ℤ) (xs ys : List ℤ) → count i (xs ++ ys) ≡ count i xs + count i ys
count-append i [] ys = omega arith
count-append i (x ∷ xs) ys = omega (arith, count-append i xs ys)

pub length-erase : (i : ℤ) (xs : List ℤ) → 0 < count i xs → length (erase i xs) + 1 ≡ length xs
length-erase i [] h = absurd (omega arith)
length-erase i (x ∷ xs) h = elim (Bool-cases (eq_ℤ i x)) [
  | inl e ↦ rw e (omega arith)
  | inr e ↦ rw e (omega (arith, length-erase i xs (omega (arith, (rw e at h)))))
]

pub count-erase :
    (j i : ℤ) (xs : List ℤ) → 0 < count i xs → count j (erase i xs) + one_if (eq_ℤ j i) ≡ count j xs
count-erase j i [] h = absurd (omega arith)
count-erase j i (x ∷ xs) h = elim (Bool-cases (eq_ℤ i x)) [
  | inl e ↦ rw (e, (eq_ℤ_iff i x).0 e) (omega arith)
  | inr e ↦ rw e (omega (arith, count-erase j i xs (omega (arith, (rw e at h)))))
]

pub one_if_le : (b : Bool) → one_if b ≤ 1
one_if_le true = omega arith
one_if_le false = omega arith
