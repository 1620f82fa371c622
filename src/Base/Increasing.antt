-- ===== src/Base/Increasing.antt =====
-- Strictly increasing lists of numbers, and what filtering and appending do to them.
use Prim.Native.Nat.{ℕ, ◌≤◌, ◌<◌}
use mathlib.Core.Path.{◌≡◌}
use mathlib.Core.Bool.{Bool, true, false}
use mathlib.Core.List.{List, [], ◌∷◌, ◌++◌}
use native.Mathlib.Omega.{arith}
use backbeat.Base.Tests.{if◌then◌else◌, Bool-cases, ltb}
use backbeat.Base.Lists.{All, All-map, All-append, All-filter_by, filter_by}
use mathlib.Core.Logic.{inl, inr}
use backbeat.Base.Equality.{nat_eq, nat_beq_iff, ◌==◌, contains}

abbrev pub AllBelow : ℕ → List ℕ → Type 0
AllBelow n = All (λ x. x < n)

abbrev pub AllAbove : ℕ → List ℕ → Type 0
AllAbove n = All (λ x. n < x)

abbrev pub IsIncreasing : List ℕ → Type 0
IsIncreasing [] = Unit
IsIncreasing (x ∷ xs) = AllAbove x xs × IsIncreasing xs

pub AllBelow-mono : (a b : ℕ) (xs : List ℕ) → a ≤ b → AllBelow a xs → AllBelow b xs
AllBelow-mono a b xs h = All-map _ _ xs (λ x p. omega arith)

pub IsIncreasing-append :
    (n : ℕ) (xs : List ℕ) → IsIncreasing xs → AllBelow n xs → IsIncreasing (xs ++ n ∷ [])
IsIncreasing-append n [] i b = (tt, tt)
IsIncreasing-append n (x ∷ xs) i b =
    (All-append (λ y. x < y) xs (n ∷ []) i.0 (b.0, tt), IsIncreasing-append n xs i.1 b.1)

IsIncreasing-if :
    (b : Bool) (xs ys : List ℕ)
    → IsIncreasing xs
    → IsIncreasing ys
    → IsIncreasing (if b then xs else ys)
IsIncreasing-if true xs ys h k = h
IsIncreasing-if false xs ys h k = k

pub IsIncreasing-filter_by :
    (p : ℕ → Bool) (xs : List ℕ) → IsIncreasing xs → IsIncreasing (filter_by p xs)
unfolding filter_by
IsIncreasing-filter_by p [] i = tt
IsIncreasing-filter_by p (x ∷ xs) i =
    let ih = IsIncreasing-filter_by p xs i.1 in
    IsIncreasing-if (p x) (x ∷ filter_by p xs) _ (All-filter_by (λ y. x < y) p xs i.0, ih) ih

-- What is left under a bound is below it.
pub AllBelow-filter_by : (n : ℕ) (xs : List ℕ) → AllBelow n (filter_by (λ x. ltb x n) xs)
unfolding filter_by
AllBelow-filter_by n [] = tt
AllBelow-filter_by n (x ∷ xs) = elim (Bool-cases (ltb x n)) [
  | inl p ↦ rw p ((ground arith), AllBelow-filter_by n xs)
  | inr p ↦ rw p (AllBelow-filter_by n xs)
]

pub contains-filter_by :
    (p : ℕ → Bool) (xs : List ℕ) (a : ℕ)
    → contains (filter_by p xs) a ≡ (if p a then contains xs a else false)
unfolding filter_by contains
contains-filter_by p [] a = ground arith
contains-filter_by p (x ∷ xs) a = ground (arith, nat_beq_iff a x, contains-filter_by p xs a)

pub contains-append_one :
    (xs : List ℕ) (n a : ℕ) → contains (xs ++ n ∷ []) a ≡ (if a == n then true else contains xs a)
unfolding contains
contains-append_one [] n a = ground arith
contains-append_one (x ∷ xs) n a = ground (arith, contains-append_one xs n a)

-- An element of a list that lies above `n` is above `n`.
pub above_of_contains : (n : ℕ) (xs : List ℕ) (a : ℕ) → AllAbove n xs → contains xs a ≡ true → n < a
unfolding contains
above_of_contains n [] a h c = absurd (ground arith)
above_of_contains n (x ∷ xs) a h c = ground (arith, h.0, above_of_contains n xs a h.1)
