-- ===== src/Supervisor/Threads.antt =====
-- The threads of a supervisor and their interleavings.
pub mod Local
pub mod Moves
pub mod Leases
pub mod Down
pub mod Known
pub mod StaysDown
pub mod Shutdown
use project_firestarter.Prelude.{
  ℕ, zero, suc, String, String-Eq, Bool, true, false, List, [], ◌∷◌, ◌++◌, reverse, Option, none,
  some, lookup, length, if◌then◌else◌,
}
use project_firestarter.Supervisor.Spec.{Raised, refusal_error, key_error, ServiceSpec, Manifest}
use project_firestarter.Supervisor.Dag.{Walk, returned, raised, out_of_fuel, closure, keys}
use project_firestarter.Supervisor.Runtime.{
  Time, Adapter, Runtime, Shared, System, supervisor_init, tick,
}
use project_firestarter.Supervisor.Machine.{
  Call, Thread, entering, starting_up, polling, publishing, stopping_up, settling, raising, leasing,
  holding, giving, rolling, scanning, reaping, pinning, failing, shutting, ended, locked, leaves,
  abandon, next_service, enter, start_up, poll, publish, stop_up, settle, raise_again, take_lease,
  give_lease, roll_back,
}
use project_firestarter.Supervisor.Reaper.{scan, reap, pin, fail, shut}

-- A call from outside.
pub data Request : Type 0 where
  acquire mark_failed : String → Request
  set_retain : String → Bool → Request
  reap_idle shutdown : Request

-- A schedule: a new thread makes a call, or a thread makes a step. A step of a `holding` thread is
-- the first `release` of its lease.
pub data Turn : Type 0 where
  call : Request → Turn
  run : ℕ → Turn

pub record World (T A : Type 0) : Type 0 where
  pub threads : List (Thread T)
  pub system : System T A

-- A new supervisor.
module _ {T A : Type 0} where
  unfoldable pub initial : Manifest → A → World T A
  unfolding supervisor_init
  initial m a = record { threads = []; system = supervisor_init m a }

module _ {T A : Type 0} ⦃time : Time T⦄ ⦃lifecycle : Adapter T A⦄ (clock : ℕ → T) where
  -- A step that touches no runtime.
  abbrev alone : System T A → Thread T × Shared A → Thread T × System T A
  alone sys (t, sh) = (t, record sys { shared = sh })

  -- `acquire`, up to its loop, with the services of the closure.
  unfoldable pub acquire_all : System T A → String → Walk (List String) → Thread T × System T A
  unfolding tick next_service
  acquire_all sys i (raised e) = (ended (some e), sys)
  acquire_all sys i out_of_fuel = (ended none, sys)
  acquire_all sys i (returned ids) =
      let (now, sh) = tick clock sys.shared in
      elim (lookup sys.manifest.services i) [
        | none ↦ (ended (some (key_error i)), sys)
        | some target ↦
            let overall = time.plus_ms now target.wake_timeout_ms in
            alone sys (next_service clock sys.manifest ids overall [] [] sh)
      ]

  unfoldable pub begin_acquire : System T A → String → Thread T × System T A
  unfolding acquire_all
  begin_acquire sys i =
      let m = sys.manifest in acquire_all sys i (closure m (length m.topological_order) i)

  abbrev known : System T A → String → Thread T → String → Thread T
  known sys i t message = elim (lookup sys.runtimes i) [
    | none ↦ ended (some (refusal_error message))
    | some r ↦ t
  ]

  abbrev pub begin_mark_failed : System T A → String → Thread T × System T A
  begin_mark_failed sys i = (known sys i (failing i) "unknown service", sys)

  abbrev pub begin_set_retain : System T A → String → Bool → Thread T × System T A
  begin_set_retain sys i b =
      (known sys i (pinning i b) "unknown service or invalid retain pin", sys)

  abbrev pub begin_reap_idle : System T A → Thread T × System T A
  begin_reap_idle sys =
      let (now, sh) = tick clock sys.shared in alone sys (scanning now (keys sys.runtimes) [], sh)

  abbrev pub begin_shutdown : System T A → Thread T × System T A
  begin_shutdown sys =
      alone sys
        (shutting (reverse sys.manifest.topological_order), record sys.shared { shutdown = true })

  -- A call, up to its first section.
  unfoldable pub begin : System T A → Request → Thread T × System T A
  unfolding begin_acquire tick
  begin sys (acquire i) = begin_acquire sys i
  begin sys (mark_failed i) = begin_mark_failed sys i
  begin sys (set_retain i b) = begin_set_retain sys i b
  begin sys reap_idle = begin_reap_idle sys
  begin sys shutdown = begin_shutdown sys

  -- One step of a thread.
  unfoldable pub step : System T A → Thread T → Thread T × System T A
  unfolding locked abandon tick enter start_up poll publish stop_up settle raise_again take_lease
      give_lease roll_back scan reap pin fail shut
  step sys (entering c deadline waited) =
      locked sys c.current (abandon clock c) (enter clock c deadline waited)
  step sys (starting_up c deadline) =
      locked sys c.current (abandon clock c) (start_up clock c deadline)
  step sys (polling c deadline) = locked sys c.current (abandon clock c) (poll clock c deadline)
  step sys (publishing c deadline) = locked sys c.current (abandon clock c) (publish clock c)
  step sys (stopping_up c e) = locked sys c.current (abandon clock c) (stop_up c e)
  step sys (settling c answer e) = locked sys c.current (abandon clock c) (settle clock c answer e)
  step sys (raising c e) = alone sys (raise_again clock c e sys.shared)
  step sys (leasing c) = locked sys c.current (abandon clock c) (take_lease clock sys.manifest c)
  step sys (holding ids) =
      let (now, sh) = tick clock sys.shared in alone sys (giving now (reverse ids) none, sh)
  step sys (giving now (i ∷ ids) after) = locked sys i leaves (give_lease now ids after)
  step sys (giving now [] (some (started, e))) = (rolling (reverse started) e, sys)
  step sys (giving now [] none) = (ended none, sys)
  step sys (rolling (i ∷ ids) e) = locked sys i leaves (roll_back ids e)
  step sys (rolling [] e) = (ended (some e), sys)
  step sys (scanning now (i ∷ ids) protected) =
      locked sys i leaves (scan sys.manifest now ids protected i)
  step sys (scanning now [] protected) =
      (reaping now (reverse sys.manifest.topological_order) protected, sys)
  step sys (reaping now (i ∷ ids) protected) = locked sys i leaves (reap now ids protected i)
  step sys (reaping now [] protected) = (ended none, sys)
  step sys (pinning i b) = locked sys i leaves (pin b)
  step sys (failing i) = locked sys i leaves fail
  step sys (shutting (i ∷ ids)) = locked sys i leaves (shut ids)
  step sys (shutting []) = (ended none, sys)
  step sys (ended outcome) = (ended outcome, sys)

  -- The step of the thread at a position.
  unfoldable pub step_at : System T A → List (Thread T) → ℕ → List (Thread T) × System T A
  unfolding step
  step_at sys [] k = ([], sys)
  step_at sys (t ∷ ts) zero = let (t', sys') = step sys t in (t' ∷ ts, sys')
  step_at sys (t ∷ ts) (suc k) = let (ts', sys') = step_at sys ts k in (t ∷ ts', sys')

  unfoldable pub turn : World T A → Turn → World T A
  unfolding step_at begin
  turn w (call q) =
      let (t, sys) = begin w.system q in record { threads = t ∷ w.threads; system = sys }
  turn w (run k) =
      let (ts, sys) = step_at w.system w.threads k in record { threads = ts; system = sys }

  -- A run of a schedule on a new supervisor.
  unfoldable pub run_all : World T A → List Turn → World T A
  unfolding turn
  run_all w [] = w
  run_all w (t ∷ ts) = run_all (turn w t) ts
