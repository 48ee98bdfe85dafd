-- ===== src/Supervisor/Synthetic.antt =====
-- `SyntheticAdapter`.
use project_firestarter.Prelude.{
  ℕ, suc, String, String-Eq, Bool, false, List, Option, none, some, Dict, lookup, insert, pop,
  member, if◌then◌else◌, ◌⊎◌, inr,
}
use project_firestarter.Supervisor.Spec.{Raised, wake_error, ServiceSpec}
use project_firestarter.Supervisor.Runtime.{Time, Adapter}

pub record Synthetic (T : Type 0) : Type 0 where
  pub ready_delay : Dict String T
  pub fail_start : List String
  pub fail_health : List String
  pub ready_at : Dict String T
  pub start_count : Dict String ℕ
  pub stop_count : Dict String ℕ

-- `counts[i] = counts.get(i, 0) + 1`
unfoldable pub counted : Dict String ℕ → String → Dict String ℕ
counted counts i =
    let n : ℕ = elim (lookup counts i) [ none ↦ 0 | some k ↦ k ] in insert counts i (suc n)

module _ {T : Type 0} ⦃time : Time T⦄ where
  unfoldable pub synthetic_start : T → ServiceSpec → Synthetic T → Option Raised × Synthetic T
  unfolding counted
  synthetic_start now s a =
      let a' = record a { start_count = counted a.start_count s.service_id } in
      let delay : T = elim (lookup a.ready_delay s.service_id) [
        | none ↦ time.nought
        | some d ↦ d
      ] in
      if member s.service_id a.fail_start
      then (some (wake_error "synthetic start refused"), a')
      else (none, record a' { ready_at = insert a.ready_at s.service_id (time.plus now delay) })

  unfoldable pub synthetic_ready : T → ServiceSpec → Synthetic T → (Raised ⊎ Bool) × Synthetic T
  synthetic_ready now s a =
      let up : Bool = elim (lookup a.ready_at s.service_id) [
        | none ↦ false
        | some t ↦ time.at_least now t
      ] in
      (inr (if member s.service_id a.fail_health then false else up), a)

  unfoldable pub synthetic_stop : ServiceSpec → Synthetic T → Option Raised × Synthetic T
  unfolding counted
  synthetic_stop s a = (
    none,
    record a {
      stop_count = counted a.stop_count s.service_id;
      ready_at = pop a.ready_at s.service_id;
    },
  )

  abbrev pub Synthetic-Adapter : Adapter T (Synthetic T)
  Synthetic-Adapter = record {
    start = synthetic_start;
    is_ready = synthetic_ready;
    stop = synthetic_stop;
  }
