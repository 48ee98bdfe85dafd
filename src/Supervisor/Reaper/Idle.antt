-- ===== src/Supervisor/Reaper/Idle.antt =====
-- What becomes of an idle service, and the idle plan against it.
use project_firestarter.Prelude.{
  ℕ, if◌then◌else◌, String, String-Eq, Bool, true, false, List, none, some, ◌≡◌, ◌↔◌, arith, member,
}
use project_firestarter.Supervisor.Spec.{stopped, starting, ready, draining}
use project_firestarter.Supervisor.Runtime.{Time, Adapter, Runtime, Shared, transition}
use project_firestarter.Supervisor.Machine.{Call, enter}
use project_firestarter.Supervisor.Reaper.{plan_one, reap, complete_stop, drains, pinned}
use project_firestarter.Supervisor.Threads.Down.{Stops}

-- When the adapter stops services without an exception: an idle service that a visit of `reap_idle`
-- finds ready is draining after it, or stopped when it has no time to drain; if no section is entered
-- for the service until a later visit for which the time to drain is over, it is stopped after the
-- later visit; and if a call of `acquire` enters the draining service before, this ends the drain
-- and makes it ready again, unless the supervisor is shut down.
pub reap-reap :
    {T A : Type 0} ⦃time : Time T⦄ ⦃lifecycle : Adapter T A⦄ (clock : ℕ → T) (now later : T)
    (rest rest' protected protected' : List String) (i : String) (r : Runtime T) (sh sh' : Shared A)
    (c : Call T) (deadline : T) (waited : Bool)
    → Stops lifecycle
    → r.state ≡ ready
    → drains now protected i r ≡ true
    → time.at_least later (time.plus_ms now r.spec.drain_grace_ms) ≡ true
    → ((reap now rest protected i r sh).1.0.state ≡ (
        if time.at_least now (time.plus_ms now r.spec.drain_grace_ms) then stopped else draining))
      × ((reap later rest' protected' i (reap now rest protected i r sh).1.0 sh').1.0.state
          ≡ stopped)
      × ((enter clock c deadline waited (reap now rest protected i r sh).1.0 sh').1.0.state ≡ (
          if sh'.shutdown
          then (reap now rest protected i r sh).1.0.state
          else if time.at_least now (time.plus_ms now r.spec.drain_grace_ms)
          then starting
          else ready))
      × ((enter clock c deadline waited (reap now rest protected i r sh).1.0 sh').1.0.drain_deadline
          ≡ (if sh'.shutdown then (reap now rest protected i r sh).1.0.drain_deadline else none))
unfolding reap complete_stop transition enter
reap-reap ⦃time = time⦄ clock now later rest rest' protected protected' i r sh sh' c deadline waited
      k a b e =
    let marked = record r { drain_deadline = some (time.plus_ms now r.spec.drain_grace_ms) } in
    let first = k r.spec (transition marked draining "idle-lease-expired" sh).1.adapter in
    (
      ground (arith, a, b, first),
      ground (arith, a, b, e, k r.spec sh'.adapter, first),
      ground (arith, a, b, first),
      ground (arith, a, b, first),
    )

-- When the adapter stops services without an exception: unless the service is draining and protected,
-- the idle plan has no step for it exactly when `reap_idle` leaves its state as it is, provided
-- that the services that a pin keeps are protected.
pub plan_one-reap :
    {T A : Type 0} ⦃time : Time T⦄ ⦃lifecycle : Adapter T A⦄ (now : T)
    (rest protected : List String) (i : String) (r : Runtime T) (sh : Shared A)
    → Stops lifecycle
    → (pinned r ≡ true → member i protected ≡ true)
    → (r.state ≡ draining → member i protected ≡ false)
    → (plan_one now protected i r ≡ none) ↔ ((reap now rest protected i r sh).1.0.state ≡ r.state)
unfolding reap complete_stop transition plan_one
plan_one-reap ⦃time = time⦄ now rest protected i r sh k a b =
    let marked = record r { drain_deadline = some (time.plus_ms now r.spec.drain_grace_ms) } in
    ground (
      arith,
      a,
      b,
      k r.spec sh.adapter,
      k r.spec (transition marked draining "idle-lease-expired" sh).1.adapter,
    )
