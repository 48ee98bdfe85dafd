-- ===== src/Capacity/Scheduler/Ranking.antt =====
-- The order of the scheduler keeps the candidates.
use project_firestarter.Prelude.{
  count, count-cons, count_swap, String, String-Eq, ◌≡◌, refl, ◌∙◌, In, here, there, Bool-cases,
  inl, inr, List, [], ◌∷◌, map,
}
use project_firestarter.Capacity.Scheduler.{Candidate, place, ordered, comes_first}

module _ {F : Type 0} where
  abbrev pub ids : List (Candidate F) → List String
  ids cs = map (λ c. c.candidate_id) cs

  tail_member :
      {x d : Candidate F} {cs ds : List (Candidate F)}
      → (In x cs → In x ds)
      → In x (d ∷ cs)
      → In x (d ∷ ds)
  tail_member f here = here
  tail_member f (there m) = there (f m)

  swap_member :
      {x c d : Candidate F} {cs : List (Candidate F)} → In x (d ∷ c ∷ cs) → In x (c ∷ d ∷ cs)
  swap_member here = there here
  swap_member (there here) = here
  swap_member (there (there m)) = there (there m)

  count-place :
      (i : String) (c : Candidate F) (cs : List (Candidate F))
      → count i (ids (place c cs)) ≡ count i (ids (c ∷ cs))
  unfolding place
  count-place i c [] = refl
  count-place i c (d ∷ cs) = elim (Bool-cases (comes_first c d)) [
    | inl y ↦ rw (place, y) refl
    | inr n ↦
        rw (place, n)
          (count_swap i c.candidate_id d.candidate_id (ids (place c cs)) (ids cs)
            (count-place i c cs))
  ]

  pub count-ordered :
      (i : String) (cs : List (Candidate F)) → count i (ids (ordered cs)) ≡ count i (ids cs)
  unfolding ordered
  count-ordered i [] = refl
  count-ordered i (c ∷ cs) =
      count-place i c (ordered cs)
      ∙ count-cons i c.candidate_id (ids (ordered cs)) (ids cs) (count-ordered i cs)

  In-place : {x c : Candidate F} {cs : List (Candidate F)} → In x (place c cs) → In x (c ∷ cs)
  unfolding place
  In-place {cs = []} m = m
  In-place {x} {c} {cs = d ∷ cs} m = elim (Bool-cases (comes_first c d)) [
    | inl y ↦ rw (place, y) at m
    | inr n ↦ swap_member (tail_member (λ k. In-place {cs = cs} k) (rw (place, n) at m))
  ]

  pub In-ordered : {x : Candidate F} (cs : List (Candidate F)) → In x (ordered cs) → In x cs
  unfolding ordered
  In-ordered [] m = m
  In-ordered (c ∷ cs) m = tail_member (λ k. In-ordered cs k) (In-place {cs = ordered cs} m)
