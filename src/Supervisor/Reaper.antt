-- ===== src/Supervisor/Reaper.antt =====
-- The sections of `reap_idle`, `plan_idle`, `set_retain`, `mark_failed` and `shutdown`.
pub mod Idle
use project_firestarter.Prelude.{
  ℕ, suc, ◌+◌, String, String-Eq, Bool, true, false, List, [], ◌∷◌, ◌++◌, reverse, Option, none,
  some, lookup, length, ltb, nat_eq, if◌then◌else◌, member, not, ◌&&◌, ◌||◌,
}
use project_firestarter.Supervisor.Spec.{
  Raised, refusal_error, ServiceState, stopped, starting, ready, draining, failed, ServiceSpec,
  Manifest,
}
use project_firestarter.Supervisor.Dag.{Walk, returned, raised, out_of_fuel, closure, keys}
use project_firestarter.Supervisor.Runtime.{
  Time, Adapter, Runtime, Shared, System, transition, tick,
}
use project_firestarter.Supervisor.Machine.{Thread, scanning, reaping, shutting, ended}

-- A pin keeps the service and its closure, while it is neither stopped nor failed.
abbrev pub pinned : {T : Type 0} → Runtime T → Bool
pinned r =
    let pin = r.spec.never_stop || r.retain in
    elim r.state [ stopped ↦ false | failed ↦ false | _ ↦ pin ]

-- `idle_since`
abbrev pub idle_since : {T : Type 0} → Runtime T → Option T
idle_since r = elim r.last_release [ some t ↦ some t | none ↦ r.ready_at ]

module _ {T : Type 0} ⦃time : Time T⦄ where
  -- The idle time of a service is over, and nothing holds it up.
  abbrev pub drains : T → List String → String → Runtime T → Bool
  drains now protected i r =
      if ltb 0 r.leases || r.spec.never_stop || r.retain || member i protected
      then false
      else elim (idle_since r) [
        | none ↦ false
        | some since ↦ time.lasted now since r.spec.idle_timeout_ms
      ]

  abbrev pub due : T → Runtime T → Bool
  due now r = elim r.drain_deadline [ none ↦ false | some deadline ↦ time.at_least now deadline ]

module _ {T A : Type 0} ⦃time : Time T⦄ ⦃lifecycle : Adapter T A⦄ where
  -- The section of the first loop of `reap_idle`, for service `i`, with the calls of `closure`.
  unfoldable pub scan :
      Manifest
      → T
      → List String
      → List String
      → String
      → Runtime T
      → Shared A
      → Thread T × (Runtime T × Shared A)
  scan m now rest protected i r sh =
      if pinned r
      then elim (closure m (length m.topological_order) i) [
        | returned more ↦ (scanning now rest (protected ++ more), (r, sh))
        | raised e ↦ (ended (some e), (r, sh))
        | out_of_fuel ↦ (ended none, (r, sh))
      ]
      else (scanning now rest protected, (r, sh))

  -- The second `if` of the section.
  unfoldable pub complete_stop :
      T → List String → List String → Runtime T → Shared A → Thread T × (Runtime T × Shared A)
  unfolding transition
  complete_stop now rest protected r sh =
      let (answer, a) = lifecycle.stop r.spec sh.adapter in
      let sh' = record sh { adapter = a } in
      let cleared = record r { ready_at = none; last_release = none; drain_deadline = none } in
      let go = nat_eq r.leases 0 && due now r in
      let on = reaping now rest protected in
      elim r.state [
        | draining ↦
            if go
            then elim answer [
              | some e ↦ (ended (some e), (r, sh'))
              | none ↦ (on, transition cleared stopped "drain-complete" sh')
            ]
            else (on, (r, sh))
        | _ ↦ (on, (r, sh))
      ]

  -- The section of the second loop of `reap_idle`.
  unfoldable pub reap :
      T
      → List String
      → List String
      → String
      → Runtime T
      → Shared A
      → Thread T × (Runtime T × Shared A)
  unfolding transition complete_stop
  reap now rest protected i r sh =
      let marked = record r { drain_deadline = some (time.plus_ms now r.spec.drain_grace_ms) } in
      let (r', sh') = transition marked draining "idle-lease-expired" sh in
      let drained = complete_stop now rest protected r' sh' in
      let stopping = complete_stop now rest protected r sh in
      let drain = drains now protected i r in
      elim r.state [
        | ready ↦ if drain then drained else (reaping now rest protected, (r, sh))
        | _ ↦ stopping
      ]

  -- The section of `set_retain`.
  unfoldable pub pin : Bool → Runtime T → Shared A → Thread T × (Runtime T × Shared A)
  pin b r sh = (ended none, (record r { retain = b }, sh))

  -- The section of `mark_failed`.
  unfoldable pub fail : Runtime T → Shared A → Thread T × (Runtime T × Shared A)
  unfolding transition
  fail r sh =
      let (answer, a) = lifecycle.stop r.spec sh.adapter in
      let sh' = record sh { adapter = a } in
      elim answer [
        | some e ↦ (ended (some e), (r, sh'))
        | none ↦ (
          ended none,
          transition (record r { ready_at = none; drain_deadline = none }) failed "readiness-lost"
              sh',
        )
      ]

  -- The section of `shutdown`.
  unfoldable pub shut : List String → Runtime T → Shared A → Thread T × (Runtime T × Shared A)
  unfolding transition
  shut rest r sh =
      let (r1, sh1) = transition r draining "supervisor-shutdown" sh in
      let (answer, a) = lifecycle.stop r.spec sh1.adapter in
      let sh2 = record sh1 { adapter = a } in
      let cleared = record r1 {
        leases = 0;
        ready_at = none;
        last_release = none;
        drain_deadline = none;
      } in
      let stop : Thread T × (Runtime T × Shared A) = elim answer [
        | some e ↦ (ended (some e), (r1, sh2))
        | none ↦ (shutting rest, transition cleared stopped "shutdown-cleanup" sh2)
      ] in
      elim r.state [ stopped ↦ (shutting rest, (r, sh)) | _ ↦ stop ]

-- The steps of an idle plan, without their numbers.
pub data IdleStep : Type 0 where
  begin_drain : String → ℕ → IdleStep
  complete : String → IdleStep

module _ {T : Type 0} ⦃time : Time T⦄ where
  -- The section of `plan_idle`.
  unfoldable pub plan_one : T → List String → String → Runtime T → Option IdleStep
  plan_one now protected i r =
      let idle : Bool = elim (idle_since r) [
        | none ↦ false
        | some since ↦ time.lasted now since r.spec.idle_timeout_ms
      ] in
      let stop = due now r in
      if ltb 0 r.leases || member i protected then none else elim r.state [
        | ready ↦ if idle then some (begin_drain i r.spec.drain_grace_ms) else none
        | draining ↦ if stop then some (complete i) else none
        | _ ↦ none
      ]
