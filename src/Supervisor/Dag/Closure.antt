-- ===== src/Supervisor/Dag/Closure.antt =====
-- What the calls of `collect` collect, against what a service depends on.
use project_firestarter.Prelude.{
  ℕ, zero, suc, String, String-Eq, ◌==◌, ◌≡◌, refl, sym, subst, arith, ◌≤◌, ◌⊎◌, true, Bool-cases,
  Option-cases, inl, inr, List, [], ◌∷◌, ◌++◌, some, lookup, length, All, member, member-append,
  member-last,
}
use project_firestarter.Supervisor.Spec.{ServiceSpec, Services}
use project_firestarter.Supervisor.Dag.{Walk, returned, each, collect}
use project_firestarter.Supervisor.Dag.Order.{bind_returned, Topological, Topological-Split}

-- What a service needs: itself, and the dependencies of what it needs.
pub data Reaches (services : Services) (i : String) : String → Type 0 where
  itself : Reaches services i i
  through :
      {j d : String} (s : ServiceSpec)
      → Reaches services i j
      → lookup services j ≡ some s
      → member d s.dependencies ≡ true
      → Reaches services i d

module _ (services : Services) where
  prepend :
      {i j x : String} (s : ServiceSpec)
      → lookup services i ≡ some s
      → member j s.dependencies ≡ true
      → Reaches services j x
      → Reaches services i x
  prepend s e k itself = through s itself e k
  prepend s e k (through t r f h) = through t (prepend s e k r) f h

  -- A list that holds the dependencies of what it holds.
  abbrev pub Closed : List String → Type 0
  Closed xs =
      (i d : String) (s : ServiceSpec)
      → member i xs ≡ true
      → lookup services i ≡ some s
      → member d s.dependencies ≡ true
      → member d xs ≡ true

  pub Closed-Reaches :
      (xs : List String) (i x : String)
      → Closed xs
      → member i xs ≡ true
      → Reaches services i x
      → member x xs ≡ true
  Closed-Reaches xs i x c h itself = h
  Closed-Reaches xs i x c h (through {j} {d} s r e k) = c j d s (Closed-Reaches xs i j c h r) e k

  -- What a call that returned has collected.
  pub record Collected (P : String → Type 0) (needed r : List String) : Type 0 where
    pub closed : Closed r
    grows : (x : String) → member x needed ≡ true → member x r ≡ true
    pub only : (x : String) → member x r ≡ true → (member x needed ≡ true) ⊎ P x

  abbrev Collects : (String → List String → Walk (List String)) → Type 0
  Collects call =
      (i : String) (needed r : List String)
      → Closed needed
      → call i needed ≡ returned r
      → Collected (Reaches services i) needed r × (member i r ≡ true)

  each-Collected :
      (call : String → List String → Walk (List String))
      → Collects call
      → (P : String → Type 0) (ds needed r : List String)
      → ((d x : String) → member d ds ≡ true → Reaches services d x → P x)
      → Closed needed
      → each call ds needed ≡ returned r
      → Collected P needed r × ((d : String) → member d ds ≡ true → member d r ≡ true)
  unfolding each
  each-Collected call p P [] needed r k c h =
      let same : needed ≡ r = cc in
      (
        subst (Collected P needed) same
            (record { closed = c; grows = λ x q. q; only = λ x q. inl q }),
        λ d q. cc,
      )
  each-Collected call p P (d ∷ ds) needed r k c h =
      let (r1, a, b) = bind_returned (call d needed) (each call ds) h in
      let (q, here) = p d needed r1 c a in
      let (q', there) =
        each-Collected call p P ds r1 r (λ e x u v. k e x (ground (arith, u)) v) q.closed b in
      (
        record {
          closed = q'.closed;
          grows = λ x u. q'.grows x (q.grows x u);
          only = λ x u. elim (q'.only x u) [
            | inr v ↦ inr v
            | inl v ↦ elim (q.only x v) [
              | inl w ↦ inl w
              | inr w ↦ inr (k d x (ground (arith, String-Eq.agrees d d)) w)
            ]
          ];
        },
        λ e u. elim (Bool-cases (e == d)) [
          | inl y ↦
              subst (λ z. member z r ≡ true) (sym ((String-Eq.agrees e d).0 y)) (q'.grows d here)
          | inr n ↦ there e (rw n at u)
        ],
      )

  -- The end of a call, after the calls of its dependencies.
  collect-adds :
      (i : String) (s : ServiceSpec) (needed r : List String)
      → lookup services i ≡ some s
      → Collected (Reaches services i) needed r
        × ((d : String) → member d s.dependencies ≡ true → member d r ≡ true)
      → Collected (Reaches services i) needed (r ++ (i ∷ [])) × (member i (r ++ (i ∷ [])) ≡ true)
  collect-adds i s needed r e (q, deps) =
      let later : (x : String) → member x r ≡ true → member x (r ++ (i ∷ [])) ≡ true =
        λ x h. rw (member-append x r (i ∷ []), h) refl in
      (
        record {
          closed = λ j d t h f k. later d (elim (Bool-cases (member j r)) [
            | inl y ↦ q.closed j d t y f k
            | inr n ↦
                let same : j ≡ i =
                  (String-Eq.agrees j i).0 (ground (arith, member-append j r (i ∷ []), n, h)) in
                let spec : t ≡ s = cc in deps d (subst (λ u. member d u.dependencies ≡ true) spec k)
          ]);
          grows = λ x h. later x (q.grows x h);
          only = λ x h. elim (Bool-cases (member x r)) [
            | inl y ↦ q.only x y
            | inr n ↦
                let same : x ≡ i =
                  (String-Eq.agrees x i).0 (ground (arith, member-append x r (i ∷ []), n, h)) in
                inr (subst (Reaches services i) (sym same) itself)
          ];
        },
        member-last i r,
      )

  pub collect-Collected : (n : ℕ) → Collects (collect services n)
  unfolding collect
  collect-Collected zero i needed r c h = cc
  collect-Collected (suc n) i needed r c h = elim (Bool-cases (member i needed)) [
    | inl seen ↦
        let same : needed ≡ r = cc (rw (seen, collect) at h) in
        (
          subst (Collected (Reaches services i) needed) same
              (record { closed = c; grows = λ x q. q; only = λ x q. inl q }),
          subst (λ l. member i l ≡ true) same seen,
        )
    | inr unseen ↦ elim (Option-cases (lookup services i)) [
      | inl e ↦ absurd cc (rw (unseen, e, collect) at h)
      | inr (s, e) ↦
          let (r1, a, b) =
            bind_returned (each (collect services n) s.dependencies needed)
              (λ more. returned (more ++ (i ∷ []))) (rw (unseen, e, collect) at h) in
          let same : r1 ++ (i ∷ []) ≡ r = cc in
          subst (λ l. Collected (Reaches services i) needed l × (member i l ≡ true)) same
            (collect-adds i s needed r1 e (
              each-Collected (collect services n) (collect-Collected n) (Reaches services i)
                s.dependencies needed r1 (λ d x k v. prepend s e k v) c a))
    ]
  ]

  -- Fuel for each service that stands before, and one more, is enough.
  each-Returns :
      (call : String → List String → Walk (List String)) (P : String → Type 0)
      → ((d : String)
          → P d
          → (needed : List String) → (r : List String) × (call d needed ≡ returned r))
      → (ds needed : List String) → All P ds
      → (r : List String) × (each call ds needed ≡ returned r)
  unfolding each
  each-Returns call P k [] needed p = (needed, refl)
  each-Returns call P k (d ∷ ds) needed (p, ps) =
      let (r1, a) = k d p needed in let (r, b) = each-Returns call P k ds r1 ps in (r, rw a b)

  pub collect-Returns :
      (n : ℕ) (p : List String) (i : String) (needed : List String)
      → Topological services [] p
      → member i p ≡ true
      → length p ≤ n
      → (r : List String) × (collect services n i needed ≡ returned r)
  unfolding collect
  collect-Returns zero [] i needed t h k = cc
  collect-Returns zero (x ∷ p) i needed t h k = absurd (omega (arith, k))
  collect-Returns (suc n) p i needed t h k = elim (Bool-cases (member i needed)) [
    | inl seen ↦ (needed, rw seen refl)
    | inr unseen ↦
        let split = Topological-Split services p i t h in
        let less : length split.before ≤ n = omega (arith, split.shorter, k) in
        let (r1, a) =
          each-Returns (collect services n) (λ d. member d split.before ≡ true)
            (λ d q needed. collect-Returns n split.before d needed split.topological q less)
            split.spec.dependencies needed split.placed in
        (r1 ++ (i ∷ []), rw (unseen, split.known, a) refl)
  ]
