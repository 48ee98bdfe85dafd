-- ===== src/Supervisor/Threads/StaysDown.antt =====
-- A service that `shutdown` has visited stays down through any schedule.
use project_firestarter.Prelude.{
  ℕ, zero, suc, String, String-Eq, ◌≡◌, refl, subst, ◌∙◌, true, length, List, [], ◌∷◌, none, some,
  lookup,
}
use project_firestarter.Supervisor.Dag.{closure}
use project_firestarter.Supervisor.Runtime.{Time, Adapter, System}
use project_firestarter.Supervisor.Machine.{
  Thread, entering, starting_up, polling, publishing, stopping_up, settling, raising, leasing,
  holding, giving, rolling, scanning, reaping, pinning, failing, shutting, ended, leaves, abandon,
  enter, start_up, poll, publish, stop_up, settle, take_lease, give_lease, roll_back,
}
use project_firestarter.Supervisor.Reaper.{scan, reap, pin, fail, shut}
use project_firestarter.Supervisor.Threads.{
  World, Turn, call, run, Request, acquire, mark_failed, set_retain, reap_idle, shutdown, step,
  step_at, begin, begin_acquire, turn, run_all,
}
use project_firestarter.Supervisor.Threads.Leases.{acquire_all-lem, step_at-Steps}
use project_firestarter.Supervisor.Threads.Down.{
  Stops, DownAt, locked-Down, enter-Down, start_up-Down, poll-Down, publish-Down, stop_up-Down,
  settle-Down, take_lease-Down, give_lease-Down, roll_back-Down, scan-Down, reap-Down, pin-Down,
  fail-Down, shut-Down,
}

module _ {T A : Type 0} ⦃time : Time T⦄ ⦃lifecycle : Adapter T A⦄ (clock : ℕ → T)
    (stops : Stops lifecycle) (i : String) where
  step-Down :
      (sys : System T A) (t : Thread T)
      → sys.shared.shutdown ≡ true
      → DownAt i sys
      → DownAt i (step clock sys t).1
  unfolding step
  step-Down sys (entering c deadline waited) f d =
      locked-Down sys i c.current (abandon clock c) (enter clock c deadline waited)
        (λ r. enter-Down clock c deadline waited r sys.shared) f d
  step-Down sys (starting_up c deadline) f d =
      locked-Down sys i c.current (abandon clock c) (start_up clock c deadline)
        (λ r. start_up-Down clock c deadline r sys.shared) f d
  step-Down sys (polling c deadline) f d =
      locked-Down sys i c.current (abandon clock c) (poll clock c deadline)
        (λ r. poll-Down clock c deadline r sys.shared) f d
  step-Down sys (publishing c deadline) f d =
      locked-Down sys i c.current (abandon clock c) (publish clock c)
        (λ r. publish-Down clock c r sys.shared) f d
  step-Down sys (stopping_up c e) f d =
      locked-Down sys i c.current (abandon clock c) (stop_up c e)
        (λ r. stop_up-Down c e r sys.shared) f d
  step-Down sys (settling c answer e) f d =
      locked-Down sys i c.current (abandon clock c) (settle clock c answer e)
        (λ r. settle-Down clock c answer e r sys.shared) f d
  step-Down sys (raising c e) f d = d
  step-Down sys (leasing c) f d =
      locked-Down sys i c.current (abandon clock c) (take_lease clock sys.manifest c)
        (λ r. take_lease-Down clock sys.manifest c r sys.shared) f d
  step-Down sys (giving now (j ∷ ids) after) f d =
      locked-Down sys i j leaves (give_lease now ids after)
        (λ r. give_lease-Down now ids after r sys.shared) f d
  step-Down sys (rolling (j ∷ ids) e) f d =
      locked-Down sys i j leaves (roll_back ids e) (λ r. roll_back-Down ids e r sys.shared) f d
  step-Down sys (scanning now (j ∷ ids) protected) f d =
      locked-Down sys i j leaves (scan sys.manifest now ids protected j)
        (λ r. scan-Down sys.manifest now j ids protected r sys.shared) f d
  step-Down sys (reaping now (j ∷ ids) protected) f d =
      locked-Down sys i j leaves (reap now ids protected j)
        (λ r. reap-Down now j ids protected r sys.shared) f d
  step-Down sys (pinning j b) f d =
      locked-Down sys i j leaves (pin b) (λ r. pin-Down b r sys.shared) f d
  step-Down sys (failing j) f d = locked-Down sys i j leaves fail (λ r. fail-Down r sys.shared) f d
  step-Down sys (shutting (j ∷ ids)) f d =
      locked-Down sys i j leaves (shut ids) (λ r. shut-Down stops ids r sys.shared) f d
  step-Down sys (holding ids) f d = d
  step-Down sys (giving now [] (some (started, e))) f d = d
  step-Down sys (giving now [] none) f d = d
  step-Down sys (rolling [] e) f d = d
  step-Down sys (scanning now [] protected) f d = d
  step-Down sys (reaping now [] protected) f d = d
  step-Down sys (shutting []) f d = d
  step-Down sys (ended outcome) f d = d

  pub begin-kept :
      (sys : System T A) (q : Request)
      → ((begin clock sys q).1.runtimes ≡ sys.runtimes)
        × (sys.shared.shutdown ≡ true → (begin clock sys q).1.shared.shutdown ≡ true)
  unfolding begin begin_acquire
  begin-kept sys (acquire j) =
      let (a, b, c, d) =
        acquire_all-lem clock sys j
          (closure sys.manifest (length sys.manifest.topological_order) j) in
      (d, λ h. a ∙ h)
  begin-kept sys (mark_failed j) = (refl, λ h. h)
  begin-kept sys (set_retain j b) = (refl, λ h. h)
  begin-kept sys reap_idle = (refl, λ h. h)
  begin-kept sys shutdown = (refl, λ h. refl)

  step_at-Down :
      (sys : System T A) (ts : List (Thread T)) (k : ℕ)
      → sys.shared.shutdown ≡ true
      → DownAt i sys
      → DownAt i (step_at clock sys ts k).1
  unfolding step_at
  step_at-Down sys [] k f d = d
  step_at-Down sys (t ∷ ts) zero f d = step-Down sys t f d
  step_at-Down sys (t ∷ ts) (suc k) f d = step_at-Down sys ts k f d

  pub run_all-Down :
      (w : World T A) (turns : List Turn)
      → w.system.shared.shutdown ≡ true
      → DownAt i w.system
      → DownAt i (run_all clock w turns).system
  unfolding run_all turn
  run_all-Down w [] f d = d
  run_all-Down w (call q ∷ turns) f d =
      let (same, flag) = begin-kept w.system q in
      run_all-Down (turn clock w (call q)) turns (flag f)
        (λ r e. d r (subst (λ l. lookup l i ≡ some r) same e))
  run_all-Down w (run k ∷ turns) f d =
      run_all-Down (turn clock w (run k)) turns
        ((step_at-Steps clock w.system w.threads k).flag ∙ f)
        (step_at-Down w.system w.threads k f d)
