-- ===== src/Supervisor/Dag.antt =====
-- `Manifest._validate_dag` and `Manifest.closure` of supervisor.py. The two inner functions recurse
-- along the dependencies, on fuel.
pub mod Order
pub mod Ends
pub mod Closure
pub mod Accepted
use Prim.Native.String.{◌++◌ as append}
use project_firestarter.Prelude.{
  ℕ, zero, suc, String, String-Eq, ◌==◌, Bool, true, false, not, List, [], ◌∷◌, ◌++◌, map, Option,
  none, some, Dict, lookup, insert, length, select, member, sorted, if◌then◌else◌,
}
use project_firestarter.Supervisor.Spec.{
  Raised, manifest_error, refusal_error, key_error, ServiceSpec, Services, Manifest,
}

-- What a recursion on fuel comes to.
pub data Walk (A : Type 0) : Type 0 where
  returned : A → Walk A
  raised : Raised → Walk A
  out_of_fuel : Walk A

infixl 5 ◌>>=◌
abbrev pub ◌>>=◌ : {A B : Type 0} → Walk A → (A → Walk B) → Walk B
returned a >>= next = next a
raised e >>= next = raised e
out_of_fuel >>= next = out_of_fuel

-- `for dependency in service.dependencies` of the first loop.
unfoldable pub check_dependencies : Services → ServiceSpec → List String → Walk (Unit {0})
check_dependencies services s [] = returned tt
check_dependencies services s (d ∷ ds) =
    let rest = check_dependencies services s ds in
    elim (lookup services d) [
      | none ↦ raised (manifest_error (append s.service_id (append " has unknown dependency: " d)))
      | some known ↦
          if d == s.service_id
          then raised (manifest_error (append s.service_id " cannot depend on itself"))
          else rest
    ]

-- The first loop, with `upstreams`.
unfoldable pub check_services : Services → Dict String String → List ServiceSpec → Walk (Unit {0})
check_services services upstreams [] = returned tt
check_services services upstreams (s ∷ rest) =
    let later = check_services services (insert upstreams s.upstream s.service_id) rest in
    elim (lookup upstreams s.upstream) [
      | some other ↦
          raised (manifest_error (append s.service_id (append " duplicates upstream for " other)))
      | none ↦ check_dependencies services s s.dependencies >>= λ _. later
    ]

-- `visited` and `order`. A set is the list of its members, the last added at the end.
pub record Marks : Type 0 where
  pub visited : List String
  pub order : List String

-- One call after another, for each item.
unfoldable pub each : {S : Type 0} → (String → S → Walk S) → List String → S → Walk S
each call [] m = returned m
each call (d ∷ ds) m = call d m >>= λ m'. each call ds m'

-- `visit`. `visiting` holds the calls that have not returned: a call adds its service and takes it
-- out before it returns, so it is an argument.
unfoldable pub visit : Services → ℕ → List String → String → Marks → Walk Marks
unfolding each
visit services zero visiting i m = out_of_fuel
visit services (suc n) visiting i m =
    if member i visiting
    then raised (manifest_error "dependency graph contains a cycle")
    else if member i m.visited
    then returned m
    else elim (lookup services i) [
      | none ↦ raised (key_error i)
      | some s ↦ each (visit services n (i ∷ visiting)) s.dependencies m >>= λ m'.
          returned (record { visited = m'.visited ++ (i ∷ []); order = m'.order ++ (i ∷ []) })
    ]

abbrev pub keys : {V : Type 0} → Dict String V → List String
keys d = map (λ e. e.0) d

abbrev pub values : {V : Type 0} → Dict String V → List V
values d = map (λ e. e.1) d

abbrev pub unmarked : Marks
unmarked = record { visited = []; order = [] }

-- The search of all services in sorted order.
unfoldable pub search_order : Services → ℕ → Walk (List String)
unfolding each visit sorted
search_order services fuel =
    each (visit services fuel []) (sorted (keys services)) unmarked >>= λ m. returned m.order

-- `_validate_dag`
unfoldable pub validate_dag : Services → ℕ → Walk (List String)
unfolding check_services search_order
validate_dag services fuel =
    check_services services [] (values services) >>= λ _. search_order services fuel

-- `Manifest.__init__`, from the services by their identifiers.
unfoldable pub manifest_init : Services → ℕ → Walk Manifest
unfolding validate_dag
manifest_init services fuel = validate_dag services fuel >>= λ order.
    returned (record { services = services; topological_order = order })

-- `collect`, with `needed`.
unfoldable pub collect : Services → ℕ → String → List String → Walk (List String)
unfolding each
collect services zero i needed = out_of_fuel
collect services (suc n) i needed =
    if member i needed then returned needed else elim (lookup services i) [
      | none ↦ raised (key_error i)
      | some s ↦
          each (collect services n) s.dependencies needed >>= λ more. returned (more ++ (i ∷ []))
    ]

-- `closure`
unfoldable pub closure : Manifest → ℕ → String → Walk (List String)
unfolding collect
closure m fuel i = elim (lookup m.services i) [
  | none ↦ raised (refusal_error "unknown service")
  | some s ↦ collect m.services fuel i [] >>= λ needed.
      returned (select (λ item. member item needed) m.topological_order)
]
