-- ===== src/Supervisor/Dag/Order.antt =====
-- The order that the search returns: each service after its dependencies, and every service.
use mathlib.Core.List.{append_assoc, append-nil}
use project_firestarter.Prelude.{
  ℕ, zero, suc, String, String-Eq, ◌==◌, ◌≡◌, refl, sym, ap, subst, arith, true, false, Bool-cases,
  Option-cases, inl, inr, List, [], ◌∷◌, ◌++◌, some, lookup, length, length-append, ◌<◌, All,
  All-at, member, member-append, member-last, member-In, sorted, member-sorted,
}
use project_firestarter.Supervisor.Spec.{ServiceSpec, Services}
use project_firestarter.Supervisor.Dag.{
  Walk, returned, raised, out_of_fuel, ◌>>=◌, Marks, unmarked, each, visit, keys, values,
  check_services, search_order, validate_dag,
}

-- A bind that returned, taken apart.
pub bind_returned :
    {A B : Type 0} (w : Walk A) (next : A → Walk B) {b : B}
    → (w >>= next) ≡ returned b
    → (a : A) × (w ≡ returned a) × (next a ≡ returned b)
bind_returned (returned a) next h = (a, refl, h)
bind_returned (raised e) next h = cc
bind_returned out_of_fuel next h = cc

module _ (services : Services) where
  -- The service is known, it stands nowhere before, and all its dependencies do.
  abbrev pub Placeable : List String → String → Type 0
  Placeable before x =
      (member x before ≡ false)
      × ((s : ServiceSpec) × (lookup services x ≡ some s)
          × All (λ d. member d before ≡ true) s.dependencies)

  -- Each service of the list is placeable after those before it.
  abbrev pub Topological : List String → List String → Type 0
  Topological before [] = Unit
  Topological before (x ∷ xs) = Placeable before x × Topological (before ++ (x ∷ [])) xs

  pub Topological-last :
      (before xs : List String) (x : String)
      → Topological before xs
      → Placeable (before ++ xs) x
      → Topological before (xs ++ (x ∷ []))
  Topological-last before [] x t p = (subst (λ b. Placeable b x) (append-nil before) p, tt)
  Topological-last before (y ∷ xs) x (q, t) p = (
    q,
    Topological-last (before ++ (y ∷ [])) xs x t
        (subst (λ b. Placeable b x) (sym (append_assoc before (y ∷ []) xs)) p),
  )

  abbrev Sound : Marks → Type 0
  Sound m = (m.visited ≡ m.order) × Topological [] m.order

  -- What a call that returned has done: it forgets no mark, and marks nothing that is being visited.
  record Progress (visiting : List String) (m m' : Marks) : Type 0 where
    sound : Sound m'
    grows : (x : String) → member x m.order ≡ true → member x m'.order ≡ true
    spares :
        (x : String) → member x visiting ≡ true → member x m'.order ≡ true → member x m.order ≡ true

  abbrev Progresses : List String → (String → Marks → Walk Marks) → Type 0
  Progresses visiting call =
      (d : String) (m m' : Marks)
      → Sound m
      → call d m ≡ returned m'
      → Progress visiting m m' × (member d m'.order ≡ true)

  each-Progress :
      (visiting : List String) (call : String → Marks → Walk Marks)
      → Progresses visiting call
      → (ds : List String) (m m' : Marks) → Sound m
      → each call ds m ≡ returned m'
      → Progress visiting m m' × All (λ d. member d m'.order ≡ true) ds
  unfolding each
  each-Progress visiting call p [] m m' s h =
      let same : m ≡ m' = cc in
      (
        subst (Progress visiting m) same
            (record { sound = s; grows = λ x q. q; spares = λ x a b. b }),
        tt,
      )
  each-Progress visiting call p (d ∷ ds) m m' s h =
      let (m1, a, b) = bind_returned (call d m) (λ x. each call ds x) h in
      let (q, here) = p d m m1 s a in
      let (r, there) = each-Progress visiting call p ds m1 m' q.sound b in
      (
        record {
          sound = r.sound;
          grows = λ x i. r.grows x (q.grows x i);
          spares = λ x v i. q.spares x v (r.spares x v i);
        },
        (r.grows d here, there),
      )

  -- The end of a call, after the calls of its dependencies.
  visit-marks :
      (visiting : List String) (i : String) (spec : ServiceSpec) (m m1 m' : Marks)
      → Sound m
      → member i visiting ≡ false
      → member i m.visited ≡ false
      → lookup services i ≡ some spec
      → Progress (i ∷ visiting) m m1 × All (λ d. member d m1.order ≡ true) spec.dependencies
      → returned (record { visited = m1.visited ++ (i ∷ []); order = m1.order ++ (i ∷ []) })
        ≡ returned m'
      → Progress visiting m m' × (member i m'.order ≡ true)
  visit-marks visiting i spec m m1 m' s fresh unseen e (q, deps) b =
      let same : record { visited = m1.visited ++ (i ∷ []); order = m1.order ++ (i ∷ []) } ≡ m' =
        cc in
      let absent : member i m1.order ≡ false = elim (Bool-cases (member i m1.order)) [
        | inr n ↦ n
        | inl y ↦
            let old : member i m.order ≡ true =
              q.spares i (ground (arith, String-Eq.agrees i i)) y in
            cc (subst (λ o. member i o ≡ false) s.0 unseen)
      ] in
      subst (λ k. Progress visiting m k × (member i k.order ≡ true)) same
        (
          record {
            sound = (
              ap (λ o. o ++ (i ∷ [])) q.sound.0,
              Topological-last [] m1.order i q.sound.1 (absent, (spec, e, deps)),
            );
            grows = λ x k. rw (member-append x m1.order (i ∷ []), q.grows x k) refl;
            spares = λ x v k.
                let apart : (x == i) ≡ false = elim (Bool-cases (x == i)) [
                  | inr n ↦ n
                  | inl y ↦ cc ((String-Eq.agrees x i).0 y)
                ] in
                q.spares x (rw (apart, v) refl) (ground (arith, member-append x m1.order (i ∷ [])));
          },
          member-last i m1.order,
        )

  visit-Progress :
      (n : ℕ) (visiting : List String) → Progresses visiting (visit services n visiting)
  unfolding visit
  visit-Progress zero visiting i m m' s h = cc
  visit-Progress (suc n) visiting i m m' s h = elim (Bool-cases (member i visiting)) [
    | inl cycle ↦ absurd cc (rw (cycle, visit) at h)
    | inr fresh ↦ elim (Bool-cases (member i m.visited)) [
      | inl seen ↦
          let same : m ≡ m' = cc (rw (fresh, seen, visit) at h) in
          (
            subst (Progress visiting m) same
                (record { sound = s; grows = λ x q. q; spares = λ x a b. b }),
            subst (λ k. member i k.order ≡ true) same (subst (λ o. member i o ≡ true) s.0 seen),
          )
      | inr unseen ↦ elim (Option-cases (lookup services i)) [
        | inl e ↦ absurd cc (rw (fresh, unseen, e, visit) at h)
        | inr (spec, e) ↦
            let (m1, a, b) =
              bind_returned (each (visit services n (i ∷ visiting)) spec.dependencies m) _
                (rw (fresh, unseen, e, visit) at h) in
            visit-marks visiting i spec m m1 m' s fresh unseen e
              (each-Progress (i ∷ visiting) (visit services n (i ∷ visiting))
                (visit-Progress n (i ∷ visiting)) spec.dependencies m m1 s a)
              b
      ]
    ]
  ]

  -- A service of the order, what stands before it, and its dependencies there.
  pub record Split (p : List String) (i : String) : Type 0 where
    pub before : List String
    pub spec : ServiceSpec
    pub known : lookup services i ≡ some spec
    pub placed : All (λ d. member d before ≡ true) spec.dependencies
    pub topological : Topological [] before
    pub absent : member i before ≡ false
    pub shorter : length before < length p
    pub within : (x : String) → member x before ≡ true → member x p ≡ true

  -- The search of the place, with `done` already passed.
  Split-step :
      (done p : List String) (i : String)
      → Topological [] done
      → Topological done p
      → member i p ≡ true
      → Split (done ++ p) i
  Split-step done [] i t q h = cc
  Split-step done (x ∷ xs) i t (pl, q) h = elim (Bool-cases (i == x)) [
    | inl y ↦
        let e : x ≡ i = sym ((String-Eq.agrees i x).0 y) in
        let (absent, (s, known, placed)) = subst (Placeable done) e pl in
        record {
          before = done;
          spec = s;
          known = known;
          placed = placed;
          topological = t;
          absent = absent;
          shorter = omega (arith, length-append done (x ∷ xs));
          within = λ z k. rw (member-append z done (x ∷ xs), k) refl;
        }
    | inr n ↦
        subst (λ l. Split l i) (append_assoc done (x ∷ []) xs)
          (Split-step (done ++ (x ∷ [])) xs i (Topological-last [] done x t pl) q (rw n at h))
  ]

  pub Topological-Split :
      (p : List String) (i : String) → Topological [] p → member i p ≡ true → Split p i
  Topological-Split p i t h = Split-step [] p i tt t h

-- A search that returned found an order in which each service stands once and after its
-- dependencies, with exactly the services of the manifest.
pub search_order-Topological :
    (services : Services) (fuel : ℕ) (order : List String)
    → search_order services fuel ≡ returned order
    → Topological services [] order
      × ((x : String) → member x (keys services) ≡ true → member x order ≡ true)
unfolding search_order
search_order-Topological services fuel order h =
    let (m, a, b) =
      bind_returned (each (visit services fuel []) (sorted (keys services)) unmarked) _ h in
    let (q, found) =
      each-Progress services [] (visit services fuel []) (visit-Progress services fuel [])
        (sorted (keys services)) unmarked m (refl, tt) a in
    let same : m.order ≡ order = cc in
    subst
      (λ o.
        Topological services [] o
        × ((x : String) → member x (keys services) ≡ true → member x o ≡ true))
      same
      (
        q.sound.1,
        λ x k.
            All-at (λ d. member d m.order ≡ true) found
              (member-In x (sorted (keys services)) (rw (member-sorted x (keys services)) k)),
      )

pub validate_dag-Topological :
    (services : Services) (fuel : ℕ) (order : List String)
    → validate_dag services fuel ≡ returned order
    → Topological services [] order
      × ((x : String) → member x (keys services) ≡ true → member x order ≡ true)
unfolding validate_dag
validate_dag-Topological services fuel order h =
    let (u, a, b) = bind_returned (check_services services [] (values services)) _ h in
    search_order-Topological services fuel order b
