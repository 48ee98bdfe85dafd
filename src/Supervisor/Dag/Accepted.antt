-- ===== src/Supervisor/Dag/Accepted.antt =====
-- The closures of an accepted manifest, in its order.
use mathlib.Core.List.{append-nil}
use project_firestarter.Prelude.{
  ℕ, String, String-Eq, ◌==◌, ◌≡◌, refl, sym, subst, arith, ◌↔◌, Bool, true, Bool-cases, inl, inr,
  ap, ◌&&◌, List, [], ◌∷◌, ◌++◌, some, lookup, length, select, select-taken, select-left, ◌∙◌, All,
  All-at, member, member-In,
}
use project_firestarter.Supervisor.Spec.{ServiceSpec, Services, Manifest}
use project_firestarter.Supervisor.Dag.{
  returned, keys, collect, closure, manifest_init, validate_dag,
}
use project_firestarter.Supervisor.Dag.Order.{
  bind_returned, Topological, Topological-Split, validate_dag-Topological,
}
use project_firestarter.Supervisor.Dag.Closure.{
  Reaches, Closed, Closed-Reaches, collect-Collected, collect-Returns,
}

module _ (services : Services) where
  Topological-Closed : (p : List String) → Topological services [] p → Closed services p
  Topological-Closed p t i d s h e k =
      let split = Topological-Split services p i t h in
      let same : s ≡ split.spec = cc (split.known, e) in
      split.within d (
        All-at (λ z. member z split.before ≡ true) split.placed
          (member-In d split.spec.dependencies
            (subst (λ u. member d u.dependencies ≡ true) same k)))

  -- The items of a topological order that a closed list holds are one too.
  module _ (needed : List String) (closed : Closed services needed) where
    abbrev chosen : String → Bool
    chosen item = member item needed

    abbrev kept : List String → List String
    kept xs = select chosen xs

    member-kept :
        (x : String) (xs : List String) → member x (kept xs) ≡ (member x xs && member x needed)
    member-kept x [] = refl
    member-kept x (y ∷ xs) = elim (Bool-cases (x == y)) [
      | inl q ↦
          let same : member y needed ≡ member x needed =
            ap (λ z. member z needed) (sym ((String-Eq.agrees x y).0 q)) in
          ground (arith, q, same, member-kept x xs)
      | inr n ↦ ground (arith, n, member-kept x xs)
    ]

    kept-append : (xs ys : List String) → kept (xs ++ ys) ≡ kept xs ++ kept ys
    kept-append [] ys = refl
    kept-append (x ∷ xs) ys = elim (Bool-cases (member x needed)) [
      | inl y ↦
          select-taken chosen x (xs ++ ys) y
          ∙ ap (λ l. x ∷ l) (kept-append xs ys)
          ∙ ap (λ l. l ++ kept ys) (sym (select-taken chosen x xs y))
      | inr n ↦
          select-left chosen x (xs ++ ys) n
          ∙ kept-append xs ys
          ∙ ap (λ l. l ++ kept ys) (sym (select-left chosen x xs n))
    ]

    kept-All :
        (before ds : List String)
        → All (λ d. member d before ≡ true) ds
        → ((d : String) → member d ds ≡ true → member d needed ≡ true)
        → All (λ d. member d (kept before) ≡ true) ds
    kept-All before [] a k = tt
    kept-All before (d ∷ ds) (a, b) k = (
      rw (member-kept d before, a, k d (ground (arith, String-Eq.agrees d d))) refl,
      kept-All before ds b (λ x h. k x (ground (arith, h))),
    )

    Topological-kept :
        (before xs : List String)
        → Topological services before xs
        → Topological services (kept before) (kept xs)
    Topological-kept before [] t = tt
    Topological-kept before (x ∷ xs) ((absent, (s, known, placed)), t) =
        let later = Topological-kept (before ++ (x ∷ [])) xs t in
        elim (Bool-cases (member x needed)) [
          | inl y ↦ subst (Topological services (kept before)) (sym (select-taken chosen x xs y)) (
            (
              rw (member-kept x before, absent) refl,
              (s, known, kept-All before s.dependencies placed (λ d k. closed x d s y known k)),
            ),
            subst (λ l. Topological services l (kept xs))
                (kept-append before (x ∷ [])
                  ∙ ap (λ l. kept before ++ l) (select-taken chosen x [] y))
                later,
          )
          | inr n ↦ subst (Topological services (kept before)) (sym (select-left chosen x xs n)) (
              subst (λ l. Topological services l (kept xs))
                (kept-append before (x ∷ [])
                  ∙ ap (λ l. kept before ++ l) (select-left chosen x [] n)
                  ∙ append-nil (kept before))
                later)
        ]

-- What a manifest that was accepted is.
pub manifest_init-parts :
    (services : Services) (fuel : ℕ) (m : Manifest)
    → manifest_init services fuel ≡ returned m
    → (m.services ≡ services) × (validate_dag services fuel ≡ returned m.topological_order)
unfolding manifest_init
manifest_init-parts services fuel m h =
    let (order, a, b) = bind_returned (validate_dag services fuel) _ h in
    let same : record { services = services; topological_order = order } ≡ m = cc in
    (ap (λ k. k.services) (sym same), a ∙ ap (λ k. returned k.topological_order) same)

closure_returned :
    (m : Manifest) (n : ℕ) (i : String) (s : ServiceSpec) (needed : List String)
    → lookup m.services i ≡ some s
    → collect m.services n i [] ≡ returned needed
    → closure m n i ≡ returned (select (λ item. member item needed) m.topological_order)
unfolding closure
closure_returned m n i s needed e a = rw (closure, e, a) refl

-- In an accepted manifest, the closure of a service is returned when the fuel is the number of
-- services in the order; it holds exactly what the service reaches along dependencies, and it is in
-- an order in which each service stands once and after its dependencies.
pub closure-Reaches :
    (services : Services) (fuel : ℕ) (m : Manifest) (i : String)
    → manifest_init services fuel ≡ returned m
    → member i (keys services) ≡ true
    → (r : List String) × (closure m (length m.topological_order) i ≡ returned r)
      × ((x : String) → (member x r ≡ true) ↔ Reaches services i x)
      × Topological services [] r
closure-Reaches services fuel m i h k =
    let (same, valid) = manifest_init-parts services fuel m h in
    let (t, every) = validate_dag-Topological services fuel m.topological_order valid in
    let order = m.topological_order in
    let (needed, a) =
      collect-Returns services (length order) order i [] t (every i k) (omega arith) in
    let (q, here) = collect-Collected services (length order) i [] needed (λ j d s p. cc) a in
    let split = Topological-Split services order i t (every i k) in
    (
      select (λ item. member item needed) order,
      closure_returned m (length order) i split.spec needed
          (subst (λ l. lookup l i ≡ some split.spec) (sym same) split.known)
          (subst (λ l. collect l (length order) i [] ≡ returned needed) (sym same) a),
      λ x. (
        λ p. elim (q.only x (ground (arith, member-kept services needed q.closed x order, p))) [
          | inl n ↦ absurd cc
          | inr r ↦ r
        ],
        λ r.
            rw
              (
                member-kept services needed q.closed x order,
                Closed-Reaches services order i x (Topological-Closed services order t) (every i k)
                    r,
                Closed-Reaches services needed i x q.closed here r,
              )
              refl,
      ),
      Topological-kept services needed q.closed [] order t,
    )

-- A service of an accepted manifest is not reached from any of its own dependencies.
pub manifest_init-acyclic :
    (services : Services) (fuel : ℕ) (m : Manifest) (i d : String) (s : ServiceSpec)
    → manifest_init services fuel ≡ returned m
    → member i (keys services) ≡ true
    → lookup services i ≡ some s
    → member d s.dependencies ≡ true
    → ¬ Reaches services d i
manifest_init-acyclic services fuel m i d s h k e p r =
    let (same, valid) = manifest_init-parts services fuel m h in
    let (t, every) = validate_dag-Topological services fuel m.topological_order valid in
    let split = Topological-Split services m.topological_order i t (every i k) in
    let spec : s ≡ split.spec = cc (split.known, e) in
    let there =
      All-at (λ z. member z split.before ≡ true) split.placed
        (member-In d split.spec.dependencies
          (subst (λ u. member d u.dependencies ≡ true) spec p)) in
    cc (
      split.absent,
      Closed-Reaches services split.before d i
          (Topological-Closed services split.before split.topological) there r,
    )
