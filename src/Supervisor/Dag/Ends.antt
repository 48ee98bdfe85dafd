-- ===== src/Supervisor/Dag/Ends.antt =====
-- How the validation of a manifest ends: with an order or with a `ManifestError`.
use project_firestarter.Prelude.{
  ℕ, zero, suc, String, String-Eq, ◌==◌, ◌≡◌, refl, sym, subst, arith, ◌<◌, ◌≤◌, ◌⊎◌, Bool, true,
  false, not, Bool-cases, Option-cases, inl, inr, List, [], ◌∷◌, ◌++◌, some, Dict, lookup, insert,
  length, select, All, In, here, there, member, member-In, sorted, member-sorted,
}
use project_firestarter.Supervisor.Dag.Order.{bind_returned}
use project_firestarter.Supervisor.Spec.{manifest_error, ServiceSpec, Services}
use project_firestarter.Supervisor.Dag.{
  Walk, returned, raised, ◌>>=◌, Marks, unmarked, each, visit, keys, values, check_dependencies,
  check_services, search_order, validate_dag,
}

-- It returned, or it refused the manifest.
abbrev pub Ends : {A : Type 0} → Walk A → Type 0
Ends {A} w = ((a : A) × (w ≡ returned a)) ⊎ ((text : String) × (w ≡ raised (manifest_error text)))

bind-Ends :
    {A B : Type 0} (w : Walk A) (next : A → Walk B)
    → Ends w
    → ((a : A) → w ≡ returned a → Ends (next a))
    → Ends (w >>= next)
bind-Ends w next (inl (a, e)) k = subst (λ v. Ends (v >>= next)) (sym e) (k a e)
bind-Ends w next (inr (t, e)) k = inr (t, rw e refl)

each-Ends :
    (P : String → Type 0) (call : String → Marks → Walk Marks)
    → ((d : String) → P d → (m : Marks) → Ends (call d m))
    → (ds : List String) → All P ds
    → (m : Marks) → Ends (each call ds m)
unfolding each
each-Ends P call k [] ps m = inl (m, refl)
each-Ends P call k (d ∷ ds) (p, ps) m =
    bind-Ends (call d m) (λ x. each call ds x) (k d p m) (λ m' e. each-Ends P call k ds ps m')

-- A stricter test selects fewer items.
module _ {A : Type 0} (p q : A → Bool) (stricter : (x : A) → q x ≡ true → p x ≡ true) where
  select-no_longer : (xs : List A) → length (select q xs) ≤ length (select p xs)
  select-no_longer [] = omega arith
  select-no_longer (x ∷ xs) = ground (arith, stricter x, select-no_longer xs)

  select-shorter :
      (i : A) (xs : List A)
      → In i xs
      → p i ≡ true
      → q i ≡ false
      → length (select q xs) < length (select p xs)
  select-shorter i [] k a b = elim k [ ]
  select-shorter i (x ∷ xs) here a b = ground (arith, a, b, select-no_longer xs)
  select-shorter i (x ∷ xs) (there k) a b = ground (arith, stricter x, select-shorter i xs k a b)

module _ (services : Services) where
  abbrev Known : String → Type 0
  Known d = (s : ServiceSpec) × (lookup services d ≡ some s)

  -- The services that no call is visiting.
  abbrev left : List String → ℕ
  left visiting = length (select (λ k. not (member k visiting)) (keys services))

  lookup-member :
      {V : Type 0} (d : Dict String V) (i : String) (s : V)
      → lookup d i ≡ some s
      → (member i (keys d) ≡ true) × In s (values d)
  unfolding lookup
  lookup-member [] i s h = cc
  lookup-member ((j, v) ∷ d) i s h = elim (Bool-cases (j == i)) [
    | inl y ↦
        let e : v ≡ s = cc (rw y at h) in
        (
          ground (arith, String-Eq.agrees i j, String-Eq.agrees j i),
          subst (λ z. In z (values ((j, v) ∷ d))) e here,
        )
    | inr n ↦ let (a, b) = lookup-member d i s (rw n at h) in (rw a ground arith, there b)
  ]

  member-Known :
      (d : Services) (i : String)
      → member i (keys d) ≡ true
      → (s : ServiceSpec) × (lookup d i ≡ some s)
  unfolding lookup
  member-Known [] i h = cc
  member-Known ((j, v) ∷ d) i h = elim (Bool-cases (j == i)) [
    | inl y ↦ (v, rw y refl)
    | inr n ↦
        let (s, e) =
          member-Known d i (ground (arith, String-Eq.agrees i j, String-Eq.agrees j i)) in
        (s, rw n e)
  ]

  fewer :
      (visiting : List String) (i : String) (s : ServiceSpec)
      → member i visiting ≡ false
      → lookup services i ≡ some s
      → left (i ∷ visiting) < left visiting
  fewer visiting i s fresh e =
      select-shorter (λ k. not (member k visiting)) (λ k. not (member k (i ∷ visiting)))
        (λ x h. ground arith) i (keys services)
        (member-In i (keys services) (lookup-member services i s e).0) (ground arith)
        (ground (arith, String-Eq.agrees i i))

  -- All dependencies are services.
  abbrev Closed : Type 0
  Closed = (i : String) (s : ServiceSpec) → lookup services i ≡ some s → All Known s.dependencies

  visit-Ends :
      Closed
      → (n : ℕ) (visiting : List String) (i : String) → Known i
      → (m : Marks) → left visiting < n
      → Ends (visit services n visiting i m)
  unfolding visit
  visit-Ends c zero visiting i (s, e) m h = absurd (omega (arith, h))
  visit-Ends c (suc n) visiting i (s, e) m h = elim (Bool-cases (member i visiting)) [
    | inl cycle ↦ rw (visit, cycle) (inr (_, refl))
    | inr fresh ↦ elim (Bool-cases (member i m.visited)) [
      | inl seen ↦ rw (visit, fresh, seen) (inl (m, refl))
      | inr unseen ↦
          let less : left (i ∷ visiting) < n = omega (arith, h, fewer visiting i s fresh e) in
          let calls =
            each-Ends Known (visit services n (i ∷ visiting))
              (λ d k m'. visit-Ends c n (i ∷ visiting) d k m' less) s.dependencies (c i s e) m in
          rw (visit, fresh, unseen, e)
            (bind-Ends (each (visit services n (i ∷ visiting)) s.dependencies m)
              (λ m'.
                returned
                  (record { visited = m'.visited ++ (i ∷ []); order = m'.order ++ (i ∷ []) }))
              calls (λ m' q. inl (_, refl)))
    ]
  ]

  -- What the first loop refuses, and what holds when it passes.
  check_dependencies-Ends :
      (s : ServiceSpec) (ds : List String) → Ends (check_dependencies services s ds)
  unfolding check_dependencies
  check_dependencies-Ends s [] = inl (tt, refl)
  check_dependencies-Ends s (d ∷ ds) = elim (Option-cases (lookup services d)) [
    | inl e ↦ rw (check_dependencies, e) (inr (_, refl))
    | inr (k, e) ↦ elim (Bool-cases (d == s.service_id)) [
      | inl y ↦ rw (check_dependencies, e, y) (inr (_, refl))
      | inr n ↦ rw (check_dependencies, e, n) (check_dependencies-Ends s ds)
    ]
  ]

  check_dependencies-Known :
      (s : ServiceSpec) (ds : List String)
      → check_dependencies services s ds ≡ returned tt
      → All Known ds
  unfolding check_dependencies
  check_dependencies-Known s [] h = tt
  check_dependencies-Known s (d ∷ ds) h = elim (Option-cases (lookup services d)) [
    | inl e ↦ absurd cc (rw (e, check_dependencies) at h)
    | inr (k, e) ↦ elim (Bool-cases (d == s.service_id)) [
      | inl y ↦ absurd cc (rw (e, y, check_dependencies) at h)
      | inr n ↦ ((k, e), check_dependencies-Known s ds (rw (e, n, check_dependencies) at h))
    ]
  ]

  check_services-Ends :
      (upstreams : Dict String String) (ss : List ServiceSpec)
      → Ends (check_services services upstreams ss)
  unfolding check_services
  check_services-Ends upstreams [] = inl (tt, refl)
  check_services-Ends upstreams (s ∷ ss) = elim (Option-cases (lookup upstreams s.upstream)) [
    | inr (o, e) ↦ rw (check_services, e) (inr (_, refl))
    | inl e ↦
        rw (check_services, e)
          (bind-Ends (check_dependencies services s s.dependencies) _
            (check_dependencies-Ends s s.dependencies)
            (λ u q. check_services-Ends (insert upstreams s.upstream s.service_id) ss))
  ]

  pick :
      {P : ServiceSpec → Type 0} {s t : ServiceSpec} {ss : List ServiceSpec}
      → P s
      → ((u : ServiceSpec) → In u ss → P u)
      → In t (s ∷ ss)
      → P t
  pick p k here = p
  pick p k (there i) = k _ i

  check_services-Known :
      (upstreams : Dict String String) (ss : List ServiceSpec)
      → check_services services upstreams ss ≡ returned tt
      → (s : ServiceSpec) → In s ss
      → All Known s.dependencies
  unfolding check_services
  check_services-Known upstreams [] h t i = elim i [ ]
  check_services-Known upstreams (s ∷ ss) h t i =
      elim (Option-cases (lookup upstreams s.upstream)) [
        | inr (o, e) ↦ absurd cc (rw (e, check_services) at h)
        | inl e ↦
            let (u, a, b) =
              bind_returned (check_dependencies services s s.dependencies)
                (λ v. check_services services (insert upstreams s.upstream s.service_id) ss)
                (rw (e, check_services) at h) in
            pick (check_dependencies-Known s s.dependencies a)
              (check_services-Known (insert upstreams s.upstream s.service_id) ss b) i
      ]

  all_left : (xs : List String) → length (select (λ k. not (member k [])) xs) ≡ length xs
  all_left [] = refl
  all_left (x ∷ xs) = omega (arith, all_left xs)

  length-keys : {V : Type 0} (d : Dict String V) → length (keys d) ≡ length d
  length-keys [] = refl
  length-keys (e ∷ d) = omega (arith, length-keys d)

  enough : left [] < suc (length services)
  enough = omega (arith, all_left (keys services), length-keys services)

  keys-All :
      (xs : List String)
      → ((x : String) → member x xs ≡ true → member x (keys services) ≡ true)
      → All Known xs
  keys-All [] k = tt
  keys-All (x ∷ xs) k = (
    member-Known services x (k x (ground (arith, String-Eq.agrees x x))),
    keys-All xs (λ y h. k y (rw h ground arith)),
  )

  search_order-Ends : Closed → Ends (search_order services (suc (length services)))
  unfolding search_order
  search_order-Ends c =
      let fuel = suc (length services) in
      bind-Ends (each (visit services fuel []) (sorted (keys services)) unmarked)
        (λ m. returned m.order)
        (each-Ends Known (visit services fuel []) (λ d k m. visit-Ends c fuel [] d k m enough)
          (sorted (keys services))
          (keys-All (sorted (keys services)) (λ x h. rw (sym (member-sorted x (keys services))) h))
          unmarked)
        (λ m q. inl (m.order, refl))

-- With one call of fuel for each service and one more, the validation ends: it returns an order or
-- it raises a `ManifestError`, and no `KeyError`.
pub validate_dag-Ends : (services : Services) → Ends (validate_dag services (suc (length services)))
unfolding validate_dag
validate_dag-Ends services =
    bind-Ends (check_services services [] (values services))
      (λ u. search_order services (suc (length services)))
      (check_services-Ends services [] (values services))
      (λ u e. search_order-Ends services (λ i s q.
        check_services-Known services [] (values services) e s
          (lookup-member services services i s q).1))
