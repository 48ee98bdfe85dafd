-- ===== src/Supervisor/Threads/Known.antt =====
-- No section of any thread takes a service away.
use project_firestarter.Prelude.{
  ℕ, zero, suc, String, String-Eq, ◌==◌, ◌≡◌, refl, Bool-cases, Option-cases, inl, inr, List, [],
  ◌∷◌, none, some, lookup, lookup-insert,
}
use project_firestarter.Supervisor.Spec.{Raised}
use project_firestarter.Supervisor.Runtime.{Time, Adapter, Runtime, Shared, System}
use project_firestarter.Supervisor.Machine.{
  Thread, entering, starting_up, polling, publishing, stopping_up, settling, raising, leasing,
  holding, giving, rolling, scanning, reaping, pinning, failing, shutting, ended, locked, leaves,
  abandon, enter, start_up, poll, publish, stop_up, settle, take_lease, give_lease, roll_back,
}
use project_firestarter.Supervisor.Reaper.{scan, reap, pin, fail, shut}
use project_firestarter.Supervisor.Threads.{step, step_at}

module _ {T A : Type 0} where
  -- The supervisor has the service.
  abbrev pub Known : System T A → String → Type 0
  Known sys j = (r : Runtime T) × (lookup sys.runtimes j ≡ some r)

  pub same_runtimes :
      (sys sys' : System T A) (j : String)
      → sys'.runtimes ≡ sys.runtimes
      → Known sys j
      → Known sys' j
  same_runtimes sys sys' j same (r, e) = (r, rw same e)

  locked-Known :
      (sys : System T A) (k j : String) (missing : Raised → Shared A → Thread T × Shared A)
      (body : Runtime T → Shared A → Thread T × (Runtime T × Shared A))
      → Known sys k
      → Known (locked sys j missing body).1 k
  unfolding locked
  locked-Known sys k j missing body (r, q) = elim (Option-cases (lookup sys.runtimes j)) [
    | inl e ↦ rw (locked, e) (r, q)
    | inr (s, e) ↦
        let s' = (body s sys.shared).1.0 in
        rw (locked, e)
          (elim (Bool-cases (j == k)) [
            | inl y ↦ (s', rw (lookup-insert sys.runtimes j k s', y) refl)
            | inr n ↦ (r, rw (lookup-insert sys.runtimes j k s', n) q)
          ])
  ]

module _ {T A : Type 0} ⦃time : Time T⦄ ⦃lifecycle : Adapter T A⦄ (clock : ℕ → T) where
  step-Known :
      (sys : System T A) (t : Thread T) (k : String) → Known sys k → Known (step clock sys t).1 k
  unfolding step
  step-Known sys (entering c deadline waited) k h =
      locked-Known sys k c.current (abandon clock c) (enter clock c deadline waited) h
  step-Known sys (starting_up c deadline) k h =
      locked-Known sys k c.current (abandon clock c) (start_up clock c deadline) h
  step-Known sys (polling c deadline) k h =
      locked-Known sys k c.current (abandon clock c) (poll clock c deadline) h
  step-Known sys (publishing c deadline) k h =
      locked-Known sys k c.current (abandon clock c) (publish clock c) h
  step-Known sys (stopping_up c e) k h =
      locked-Known sys k c.current (abandon clock c) (stop_up c e) h
  step-Known sys (settling c answer e) k h =
      locked-Known sys k c.current (abandon clock c) (settle clock c answer e) h
  step-Known sys (raising c e) k h = h
  step-Known sys (leasing c) k h =
      locked-Known sys k c.current (abandon clock c) (take_lease clock sys.manifest c) h
  step-Known sys (holding ids) k h = h
  step-Known sys (giving now (i ∷ ids) after) k h =
      locked-Known sys k i leaves (give_lease now ids after) h
  step-Known sys (giving now [] (some (started, e))) k h = h
  step-Known sys (giving now [] none) k h = h
  step-Known sys (rolling (i ∷ ids) e) k h = locked-Known sys k i leaves (roll_back ids e) h
  step-Known sys (rolling [] e) k h = h
  step-Known sys (scanning now (i ∷ ids) protected) k h =
      locked-Known sys k i leaves (scan sys.manifest now ids protected i) h
  step-Known sys (scanning now [] protected) k h = h
  step-Known sys (reaping now (i ∷ ids) protected) k h =
      locked-Known sys k i leaves (reap now ids protected i) h
  step-Known sys (reaping now [] protected) k h = h
  step-Known sys (pinning i b) k h = locked-Known sys k i leaves (pin b) h
  step-Known sys (failing i) k h = locked-Known sys k i leaves fail h
  step-Known sys (shutting (i ∷ ids)) k h = locked-Known sys k i leaves (shut ids) h
  step-Known sys (shutting []) k h = h
  step-Known sys (ended outcome) k h = h

  pub step_at-Known :
      (sys : System T A) (ts : List (Thread T)) (j : ℕ) (k : String)
      → Known sys k
      → Known (step_at clock sys ts j).1 k
  unfolding step_at
  step_at-Known sys [] j k h = h
  step_at-Known sys (t ∷ ts) zero k h = step-Known sys t k h
  step_at-Known sys (t ∷ ts) (suc j) k h = step_at-Known sys ts j k h
