-- ===== src/Supervisor/Machine.antt =====
-- The operations of `ServiceSupervisor` as threads. A thread is what remains of a call; a step runs it
-- up to the next place where another thread can act: a section under a service's condition, a call
-- of the adapter, or a test of the flag.
use project_firestarter.Prelude.{
  ℕ, suc, ◌-◌, String, String-Eq, Bool, true, false, List, [], ◌∷◌, ◌++◌, reverse, Option, none,
  some, lookup, insert, ltb, nat_eq, if◌then◌else◌, inl, inr, not,
}
use project_firestarter.Supervisor.Spec.{
  Raised, manifest_error, refusal_error, wake_error, key_error, adapter_error, stopped, starting,
  ready, draining, failed, Manifest,
}
use project_firestarter.Supervisor.Runtime.{
  Time, Adapter, Runtime, Shared, System, transition, tick,
}

-- The variables of a call of `acquire`: the service that the loop is at, and those after it.
pub record Call (T : Type 0) : Type 0 where
  pub current : String
  pub rest : List String
  pub overall_deadline : T
  pub acquired : List String
  pub started : List String

-- What remains of a call. A name says what comes next.
pub data Thread (T : Type 0) : Type 0 where
  -- `acquire`
  entering : Call T → T → Bool → Thread T
  starting_up polling publishing : Call T → T → Thread T
  stopping_up : Call T → Raised → Thread T
  settling : Call T → Option Raised → Raised → Thread T
  raising : Call T → Raised → Thread T
  leasing : Call T → Thread T
  -- A `Lease`, before `release`.
  holding : List String → Thread T
  -- `_release` of services in this order, and then `_rollback` of those that were started.
  giving : T → List String → Option (List String × Raised) → Thread T
  rolling : List String → Raised → Thread T
  -- `reap_idle`, its two loops.
  scanning : T → List String → List String → Thread T
  reaping : T → List String → List String → Thread T
  -- `set_retain`, `mark_failed`, `shutdown`
  pinning : String → Bool → Thread T
  failing : String → Thread T
  shutting : List String → Thread T
  ended : Option Raised → Thread T

module _ {T A : Type 0} where
  -- A section under `self._runtimes[i].condition`, and what the `KeyError` comes to.
  unfoldable pub locked :
      System T A
      → String
      → (Raised → Shared A → Thread T × Shared A)
      → (Runtime T → Shared A → Thread T × (Runtime T × Shared A))
      → Thread T × System T A
  locked sys i missing body = elim (lookup sys.runtimes i) [
    | none ↦ let (t, sh) = missing (key_error i) sys.shared in (t, record sys { shared = sh })
    | some r ↦
        let (t, (r', sh)) = body r sys.shared in
        (t, record sys { runtimes = insert sys.runtimes i r'; shared = sh })
  ]

  -- The exception leaves the call.
  abbrev pub leaves : Raised → Shared A → Thread T × Shared A
  leaves e sh = (ended (some e), sh)

abbrev pub shutting_down : Raised
shutting_down = refusal_error "service supervisor is shutting down"

-- The exception that `_ensure_ready` raises when the one it caught is `e`.
unfoldable pub translated : Bool → Raised → Raised
translated true e = shutting_down
translated false (wake_error text) = wake_error text
translated false (refusal_error text) = refusal_error text
translated false (manifest_error text) = wake_error "synthetic adapter failed"
translated false (key_error text) = wake_error "synthetic adapter failed"
translated false (adapter_error text) = wake_error "synthetic adapter failed"

module _ {T A : Type 0} ⦃time : Time T⦄ ⦃lifecycle : Adapter T A⦄ (clock : ℕ → T) where
  -- `except Exception` of `acquire`, up to the loop of `_release`.
  unfoldable pub abandon : Call T → Raised → Shared A → Thread T × Shared A
  unfolding tick
  abandon c e sh =
      let (now, sh') = tick clock sh in (giving now (reverse c.acquired) (some (c.started, e)), sh')

  -- The head of the loop of `acquire`.
  unfoldable pub next_service :
      Manifest → List String → T → List String → List String → Shared A → Thread T × Shared A
  unfolding tick abandon
  next_service m [] overall acquired begun sh = (holding acquired, sh)
  next_service m (i ∷ rest) overall acquired begun sh =
      let (now, sh') = tick clock sh in
      let c : Call T = record {
        current = i;
        rest = rest;
        overall_deadline = overall;
        acquired = acquired;
        started = begun;
      } in
      elim (lookup m.services i) [
        | none ↦ abandon c (key_error i) sh'
        | some s ↦
            (entering c (time.earlier overall (time.plus_ms now s.wake_timeout_ms)) false, sh')
      ]

  -- The first section of `_ensure_ready`. A wait ends when it is notified, when it times out, or
  -- at any time, and the loop begins again.
  unfoldable pub enter :
      Call T → T → Bool → Runtime T → Shared A → Thread T × (Runtime T × Shared A)
  unfolding tick abandon transition
  enter c deadline waited r sh =
      let (gone, sh_gone) = abandon c shutting_down sh in
      let (failed_wait, sh_failed) = abandon c (wake_error "coalesced wake failed") sh in
      let (now, sh_now) = tick clock sh in
      let (late, sh_late) = abandon c (wake_error "wake timeout while waiting for peer") sh_now in
      let first : Thread T × (Runtime T × Shared A) =
        (starting_up c deadline, transition r starting "first-lease" sh) in
      if sh.shutdown then (gone, (r, sh_gone)) else elim r.state [
        | ready ↦ (leasing c, (r, sh))
        | draining ↦ (
          leasing c,
          transition (record r { drain_deadline = none }) ready "drain-cancelled-by-lease" sh,
        )
        | starting ↦
            if time.passed deadline now
            then (late, (r, sh_late))
            else (entering c deadline true, (r, sh_now))
        | failed ↦ if waited then (failed_wait, (r, sh_failed)) else first
        | stopped ↦ first
      ]

  -- `self.adapter.start`
  unfoldable pub start_up : Call T → T → Runtime T → Shared A → Thread T × (Runtime T × Shared A)
  unfolding tick
  start_up c deadline r sh =
      let (now, sh') = tick clock sh in
      let (answer, a) = lifecycle.start now r.spec sh'.adapter in
      let sh'' = record sh' { adapter = a } in
      elim answer [ some e ↦ (stopping_up c e, (r, sh'')) | none ↦ (polling c deadline, (r, sh'')) ]

  -- One round of the loop of `_ensure_ready`, up to the section that publishes the state.
  unfoldable pub poll : Call T → T → Runtime T → Shared A → Thread T × (Runtime T × Shared A)
  unfolding tick
  poll c deadline r sh =
      let (now, sh') = tick clock sh in
      let (answer, a) = lifecycle.is_ready now r.spec sh'.adapter in
      let (later, sh'') = tick clock (record sh' { adapter = a }) in
      if sh.shutdown then (stopping_up c shutting_down, (r, sh)) else elim answer [
        | inl e ↦ (stopping_up c e, (r, record sh' { adapter = a }))
        | inr up ↦
            if up
            then (publishing c deadline, (r, record sh' { adapter = a }))
            else if time.passed deadline later
            then (stopping_up c (wake_error "bounded readiness timeout"), (r, sh''))
            else (polling c deadline, (r, sh''))
      ]

  unfoldable pub publish : Call T → Runtime T → Shared A → Thread T × (Runtime T × Shared A)
  unfolding tick transition
  publish c r sh =
      let (now, sh') = tick clock sh in
      if sh.shutdown then (stopping_up c shutting_down, (r, sh)) else (
        leasing (record c { started = c.started ++ (c.current ∷ []) }),
        transition (record r { ready_at = some now; last_release = none }) ready "health-ready" sh',
      )

  unfoldable pub settle :
      Call T → Option Raised → Raised → Runtime T → Shared A → Thread T × (Runtime T × Shared A)
  unfolding abandon transition
  settle c answer e r sh =
      let cleared = record r { ready_at = none; drain_deadline = none } in
      let (r', sh') =
        if sh.shutdown
        then transition cleared stopped "shutdown-wake-cleanup" sh
        else transition cleared failed "wake-cleanup" sh in
      let (t, sh'') : Thread T × Shared A = elim answer [
        | some e' ↦ abandon c e' sh'
        | none ↦ (raising c e, sh')
      ] in
      (t, (r', sh''))

  -- After the section: the flag is read again, and the exception is translated.
  unfoldable pub raise_again : Call T → Raised → Shared A → Thread T × Shared A
  unfolding abandon translated
  raise_again c e sh = abandon c (translated sh.shutdown e) sh

  -- The section of `acquire`.
  unfoldable pub take_lease :
      Manifest → Call T → Runtime T → Shared A → Thread T × (Runtime T × Shared A)
  unfolding abandon next_service
  take_lease m c r sh =
      let (lost, sh_lost) =
        abandon c (wake_error "service left READY before lease acquisition") sh in
      let (on, sh_on) =
        next_service m c.rest c.overall_deadline (c.acquired ++ (c.current ∷ [])) c.started sh in
      elim r.state [
        | ready ↦ (on, (record r { leases = suc r.leases; drain_deadline = none }, sh_on))
        | _ ↦ (lost, (r, sh_lost))
      ]

module _ {T A : Type 0} where
  -- The section of `_release`.
  unfoldable pub give_lease :
      T
      → List String
      → Option (List String × Raised)
      → Runtime T
      → Shared A
      → Thread T × (Runtime T × Shared A)
  give_lease now rest after r sh =
      let less = record r { leases = r.leases - 1 } in
      if not (ltb 0 r.leases)
      then (giving now rest after, (r, sh))
      else if nat_eq (r.leases - 1) 0
      then (giving now rest after, (record less { last_release = some now }, sh))
      else (giving now rest after, (less, sh))

module _ {T A : Type 0} ⦃lifecycle : Adapter T A⦄ where
  -- `self.adapter.stop` of the `except` of `_ensure_ready`, and its `finally`.
  unfoldable pub stop_up :
      Call T → Raised → Runtime T → Shared A → Thread T × (Runtime T × Shared A)
  stop_up c e r sh =
      let (answer, a) = lifecycle.stop r.spec sh.adapter in
      (settling c answer e, (r, record sh { adapter = a }))

  -- The section of `_rollback`.
  unfoldable pub roll_back :
      List String → Raised → Runtime T → Shared A → Thread T × (Runtime T × Shared A)
  unfolding transition
  roll_back rest e r sh =
      let (r1, sh1) = transition r draining "dependency-rollback" sh in
      let (answer, a) = lifecycle.stop r.spec sh1.adapter in
      let sh2 = record sh1 { adapter = a } in
      let clean =
        transition (record r1 { ready_at = none; drain_deadline = none }) stopped
          "dependency-rollback-clean" sh2 in
      if ltb 0 r.leases then (rolling rest e, (r, sh)) else elim r.state [
        | ready ↦ elim answer [
          | some e' ↦ (ended (some e'), (r1, sh2))
          | none ↦ (rolling rest e, clean)
        ]
        | _ ↦ (rolling rest e, (r, sh))
      ]
