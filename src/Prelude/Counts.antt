-- ===== src/Prelude/Counts.antt =====
-- Counting the places of a number in a list.
use Prim.Native.Nat.{ℕ, ◌+◌}
use mathlib.Core.Path.{◌≡◌, refl, ap}
use mathlib.Core.Logic.{◌≢◌}
use mathlib.Core.Bool.{Bool, false}
use mathlib.Core.List.{List, [], ◌∷◌, ◌++◌}
use native.Mathlib.Omega.{arith}
use fix_engine.Prelude.Tests.{◌==◌, ==_iff, if◌then◌else◌, if_yes}

abbrev pub one_if : Bool → ℕ
one_if b = if b then 1 else 0

-- How often a number is in a list.
unfoldable pub occurrences : ℕ → List ℕ → ℕ
occurrences x [] = 0
occurrences x (y ∷ ys) = one_if (y == x) + occurrences x ys

pub occurrences-append :
    (x : ℕ) (xs ys : List ℕ) → occurrences x (xs ++ ys) ≡ occurrences x xs + occurrences x ys
unfolding occurrences
occurrences-append x [] ys = omega arith
occurrences-append x (y ∷ xs) ys = omega (arith, occurrences-append x xs ys)

pub occurrences_cons :
    (x y : ℕ) (ys : List ℕ) → occurrences x (y ∷ ys) ≡ one_if (y == x) + occurrences x ys
unfolding occurrences
occurrences_cons x y ys = refl

pub here : (i : ℕ) → one_if (i == i) ≡ 1
here i = if_yes (i == i) 1 0 ((==_iff i i).1 refl)

pub not_here : (i j : ℕ) → j ≢ i → one_if (i == j) ≡ 0
not_here i j apart = let t : (i == j) ≡ false = ground (arith, apart) in ap one_if t
