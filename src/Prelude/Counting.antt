-- ===== src/Prelude/Counting.antt =====
-- How often a text is in a list.
use Prim.Native.Nat.{ℕ, suc, ◌+◌}
use Prim.Native.String.{String}
use mathlib.Core.Path.{◌≡◌, refl, ap, ◌∙◌}
use mathlib.Core.List.{List, [], ◌∷◌, ◌++◌, reverse, reverse-cons}
use native.Mathlib.Omega.{arith}
use project_firestarter.Prelude.Tests.{if◌then◌else◌}
use project_firestarter.Prelude.Equality.{String-Eq, ◌==◌}

abbrev pub count : String → List String → ℕ
count i [] = 0
count i (x ∷ xs) = let rest = count i xs in if i == x then suc rest else rest

pub count-append : (i : String) (xs ys : List String) → count i (xs ++ ys) ≡ count i xs + count i ys
count-append i [] ys = omega arith
count-append i (x ∷ xs) ys = ground (arith, count-append i xs ys)

pub count-reverse : (i : String) (xs : List String) → count i (reverse xs) ≡ count i xs
count-reverse i [] = refl
count-reverse i (x ∷ xs) =
    ap (count i) (reverse-cons x xs)
    ∙ omega (
      arith,
      count-append i (reverse xs) (x ∷ []),
      count-append i (x ∷ []) xs,
      count-reverse i xs,
    )

-- The same item in front, and two items in either order.
pub count-cons :
    (i x : String) (xs ys : List String)
    → count i xs ≡ count i ys
    → count i (x ∷ xs) ≡ count i (x ∷ ys)
count-cons i x xs ys h = ground (arith, h)

pub count_swap :
    (i x y : String) (xs ys : List String)
    → count i xs ≡ count i (x ∷ ys)
    → count i (y ∷ xs) ≡ count i (x ∷ y ∷ ys)
count_swap i x y xs ys h = ground (arith, h)
