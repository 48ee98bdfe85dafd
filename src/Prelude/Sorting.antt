-- ===== src/Prelude/Sorting.antt =====
-- Python's `sorted` of texts.
use Prim.Native.Nat.{Ordering}
use Prim.Native.String.{String, compare}
use mathlib.Core.Path.{◌≡◌, refl}
use mathlib.Core.Bool.{◌||◌}
use mathlib.Core.List.{List, [], ◌∷◌}
use native.Mathlib.Omega.{arith}
use project_firestarter.Prelude.Equality.{String-Eq, ◌==◌, member}

unfoldable pub insert_sorted : String → List String → List String
insert_sorted s [] = s ∷ []
insert_sorted s (t ∷ ts) = elim (compare s t) [
  | Ordering.gt ↦ t ∷ insert_sorted s ts
  | _ ↦ s ∷ t ∷ ts
]

unfoldable pub sorted : List String → List String
unfolding insert_sorted
sorted [] = []
sorted (s ∷ ss) = insert_sorted s (sorted ss)

member-insert_sorted :
    (x s : String) (ts : List String) → member x (insert_sorted s ts) ≡ (x == s || member x ts)
unfolding insert_sorted
member-insert_sorted x s [] = refl
member-insert_sorted x s (t ∷ ts) = ground (arith, member-insert_sorted x s ts)

-- Sorting keeps the members.
pub member-sorted : (x : String) (ss : List String) → member x (sorted ss) ≡ member x ss
unfolding sorted
member-sorted x [] = refl
member-sorted x (s ∷ ss) = ground (arith, member-insert_sorted x s (sorted ss), member-sorted x ss)
