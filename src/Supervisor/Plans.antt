-- ===== src/Supervisor/Plans.antt =====
-- `plan_wake`, `plan_idle` and `status`, which change nothing. A snapshot stands for the sections that
-- read one runtime after another.
use project_firestarter.Prelude.{
  ℕ, suc, String, String-Eq, Bool, List, [], ◌∷◌, ◌++◌, reverse, none, some, Dict, lookup, length,
  if◌then◌else◌, sorted,
}
use project_firestarter.Supervisor.Spec.{key_error, ServiceState, Manifest}
use project_firestarter.Supervisor.Dag.{Walk, returned, raised, ◌>>=◌, closure, keys}
use project_firestarter.Supervisor.Runtime.{Time, Runtime, System}
use project_firestarter.Supervisor.Reaper.{IdleStep, plan_one, pinned}

pub record WakeStep : Type 0 where
  pub sequence : ℕ
  pub service_id : String
  pub adapter : String
  pub wake_timeout_ms : ℕ

-- `enumerate(closure, start=1)`
unfoldable pub wake_steps : Manifest → ℕ → List String → Walk (List WakeStep)
wake_steps m n [] = returned []
wake_steps m n (i ∷ ids) = elim (lookup m.services i) [
  | none ↦ raised (key_error i)
  | some s ↦ wake_steps m (suc n) ids >>= λ more. returned (
      record {
        sequence = n;
        service_id = i;
        adapter = s.adapter;
        wake_timeout_ms = s.wake_timeout_ms;
      }
      ∷ more)
]

unfoldable pub plan_wake : Manifest → String → Walk (List WakeStep)
unfolding wake_steps
plan_wake m i = closure m (length m.topological_order) i >>= λ ids. wake_steps m 1 ids

module _ {T : Type 0} where
  -- The first loop of `plan_idle`.
  unfoldable pub protected_of :
      Manifest → Dict String (Runtime T) → List String → Walk (List String)
  protected_of m [] protected = returned protected
  protected_of m ((i, r) ∷ rest) protected =
      let without = protected_of m rest protected in
      if pinned r
      then (closure m (length m.topological_order) i >>= λ more.
          protected_of m rest (protected ++ more))
      else without

  unfoldable pub idle_steps :
      ⦃time : Time T⦄
      → Dict String (Runtime T)
      → T
      → List String
      → List String
      → Walk (List IdleStep)
  unfolding plan_one
  idle_steps runtimes now protected [] = returned []
  idle_steps runtimes now protected (i ∷ ids) =
      let later = idle_steps runtimes now protected ids in
      elim (lookup runtimes i) [
        | none ↦ raised (key_error i)
        | some r ↦ later >>= λ more.
            returned (elim (plan_one now protected i r) [ none ↦ more | some s ↦ s ∷ more ])
      ]

  -- The steps in order: a step's `sequence` is its place, from 1.
  unfoldable pub plan_idle : {A : Type 0} ⦃time : Time T⦄ → System T A → T → Walk (List IdleStep)
  unfolding protected_of idle_steps
  plan_idle sys now = protected_of sys.manifest sys.runtimes [] >>= λ protected.
      idle_steps sys.runtimes now protected (reverse sys.manifest.topological_order)

pub record StatusLine : Type 0 where
  pub service_id : String
  pub state : ServiceState
  pub active_leases : ℕ
  pub retain : Bool
  pub never_stop : Bool

module _ {T : Type 0} where
  unfoldable pub status_lines : Dict String (Runtime T) → List String → Walk (List StatusLine)
  status_lines runtimes [] = returned []
  status_lines runtimes (i ∷ ids) = elim (lookup runtimes i) [
    | none ↦ raised (key_error i)
    | some r ↦ status_lines runtimes ids >>= λ more. returned (
        record {
          service_id = i;
          state = r.state;
          active_leases = r.leases;
          retain = r.retain;
          never_stop = r.spec.never_stop;
        }
        ∷ more)
  ]

  -- `status`, without `resource_metrics`, which holds no number.
  unfoldable pub status : {A : Type 0} → System T A → Walk (List StatusLine)
  unfolding status_lines
  status sys = status_lines sys.runtimes (sorted (keys sys.runtimes))
