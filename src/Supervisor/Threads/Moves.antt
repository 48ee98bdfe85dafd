-- ===== src/Supervisor/Threads/Moves.antt =====
-- What one step of a thread does to the leases of all services.
use project_firestarter.Prelude.{
  count, count-reverse, ℕ, ◌+◌, ◌≤◌, ◌<◌, String, String-Eq, ◌==◌, ◌≡◌, refl, ◌∙◌, arith, true,
  false, Bool-cases, Option-cases, ◌⊎◌, inl, inr, [], ◌∷◌, none, some, Dict, lookup, lookup-insert,
}
use project_firestarter.Supervisor.Spec.{Raised, key_error}
use project_firestarter.Supervisor.Runtime.{Time, Adapter, Runtime, Shared, System}
use project_firestarter.Supervisor.Machine.{
  Call, Thread, entering, starting_up, polling, publishing, stopping_up, settling, raising, leasing,
  holding, giving, rolling, scanning, reaping, pinning, failing, shutting, ended, locked, leaves,
  abandon,
}
use project_firestarter.Supervisor.Machine.{
  translated, enter, start_up, poll, publish, stop_up, settle, take_lease, give_lease, roll_back,
}
use project_firestarter.Supervisor.Reaper.{scan, reap, pin, fail, shut}
use project_firestarter.Supervisor.Threads.{step}
use project_firestarter.Supervisor.Threads.Local.{
  held, shuts, fine, Local, abandon-held, enter-Local, start_up-Local, poll-Local, publish-Local,
  stop_up-Local, settle-Local, take_lease-Local, give_lease-Local, roll_back-Local, scan-Local,
  reap-Local, pin-Local, fail-Local, shut-Local,
}

-- The leases that the supervisor counts.
abbrev pub leases_of : {T : Type 0} → Dict String (Runtime T) → String → ℕ
leases_of runtimes i = elim (lookup runtimes i) [ none ↦ 0 | some r ↦ r.leases ]

abbrev pub AllFine : {T : Type 0} → Dict String (Runtime T) → Type 0
AllFine {T} runtimes = (i : String) (r : Runtime T) → lookup runtimes i ≡ some r → fine r ≡ true

module _ {T A : Type 0} where
  -- From a thread and a system to the next ones, while the supervisor is not shut down.
  pub record Moves (t : Thread T) (sys : System T A) (out : Thread T × System T A) : Type 0 where
    pub calm : shuts t ≡ false → shuts out.0 ≡ false
    pub flag : out.1.shared.shutdown ≡ sys.shared.shutdown
    pub conserves :
        sys.shared.shutdown ≡ false
        → shuts t ≡ false
        → ((i : String) → count i (held t) ≤ leases_of sys.runtimes i)
        → (j : String)
        → count j (held out.0) + leases_of sys.runtimes j
          ≡ count j (held t) + leases_of out.1.runtimes j
    pub keeps :
        sys.shared.shutdown ≡ false
        → shuts t ≡ false
        → AllFine sys.runtimes
        → AllFine out.1.runtimes

  -- What a `KeyError` comes to: the thread keeps its leases, or it holds one of the unknown service.
  record Missing (i : String) (t : Thread T) (out : Thread T × Shared A) (sh : Shared A)
      : Type 0 where
    calm : shuts out.0 ≡ false
    flag : out.1.shutdown ≡ sh.shutdown
    holds : (0 < count i (held t)) ⊎ ((j : String) → count j (held out.0) ≡ count j (held t))

  locked-Moves :
      (sys : System T A) (i : String) (t : Thread T)
      (missing : Raised → Shared A → Thread T × Shared A)
      (body : Runtime T → Shared A → Thread T × (Runtime T × Shared A))
      → Missing i t (missing (key_error i) sys.shared) sys.shared
      → ((r : Runtime T) → Local i t r sys.shared (body r sys.shared))
      → Moves t sys (locked sys i missing body)
  unfolding locked
  locked-Moves sys i t missing body m k = elim (Option-cases (lookup sys.runtimes i)) [
    | inl e ↦
        rw (locked, e)
          (record {
            calm = λ u. m.calm;
            flag = m.flag;
            conserves = λ a u h j. elim m.holds [
              | inl p ↦ absurd (ground (arith, p, h i, e))
              | inr q ↦ omega (arith, q j)
            ];
            keeps = λ a u f. f;
          })
    | inr (r, e) ↦
        let l = k r in
        rw (locked, e)
          (record {
            calm = l.calm;
            flag = l.flag;
            conserves = λ a u h j. ground (
              arith,
              e,
              h i,
              l.own a u,
              l.other j,
              lookup-insert sys.runtimes i j (body r sys.shared).1.0,
              String-Eq.agrees i j,
              String-Eq.agrees j i,
            );
            keeps = λ a u f j r' q. elim (Bool-cases (i == j)) [
              | inl y ↦ cc (
                l.keeps a u (f i r e),
                rw (lookup-insert sys.runtimes i j (body r sys.shared).1.0, y) at q,
              )
              | inr n ↦ f j r' (rw (lookup-insert sys.runtimes i j (body r sys.shared).1.0, n) at q)
            ];
          })
  ]

  -- A `KeyError` that leaves a call which holds no lease, or one of the unknown service.
  left_Missing :
      (i : String) (t : Thread T) (e : Raised) (sh : Shared A)
      → (0 < count i (held t)) ⊎ ((j : String) → 0 ≡ count j (held t))
      → Missing i t (leaves e sh) sh
  left_Missing i t e sh h = record { calm = refl; flag = refl; holds = h }

  alone-Moves :
      (t t' : Thread T) (sys : System T A)
      → shuts t' ≡ false
      → ((j : String) → count j (held t') ≡ count j (held t))
      → Moves t sys (t', sys)
  alone-Moves t t' sys u h = record {
    calm = λ v. u;
    flag = refl;
    conserves = λ a v k j. omega (arith, h j);
    keeps = λ a v f. f;
  }

module _ {T A : Type 0} ⦃time : Time T⦄ ⦃lifecycle : Adapter T A⦄ (clock : ℕ → T) where
  abandon-Missing :
      (c : Call T) (t : Thread T) (sh : Shared A)
      → ((j : String) → count j c.acquired ≡ count j (held t))
      → Missing c.current t (abandon clock c (key_error c.current) sh) sh
  abandon-Missing c t sh h =
      let facts = abandon-held clock c (key_error c.current) sh in
      record {
        calm = (facts c.current).2;
        flag = (facts c.current).1;
        holds = inr (λ j. (facts j).0 ∙ h j);
      }

  pub step-Moves : (sys : System T A) (t : Thread T) → Moves t sys (step clock sys t)
  unfolding step
  step-Moves sys (entering c deadline waited) =
      locked-Moves sys c.current _ (abandon clock c) (enter clock c deadline waited)
        (abandon-Missing c _ sys.shared (λ j. refl))
        (λ r. enter-Local clock c deadline waited r sys.shared)
  step-Moves sys (starting_up c deadline) =
      locked-Moves sys c.current _ (abandon clock c) (start_up clock c deadline)
        (abandon-Missing c _ sys.shared (λ j. refl))
        (λ r. start_up-Local clock c deadline r sys.shared)
  step-Moves sys (polling c deadline) =
      locked-Moves sys c.current _ (abandon clock c) (poll clock c deadline)
        (abandon-Missing c _ sys.shared (λ j. refl)) (λ r. poll-Local clock c deadline r sys.shared)
  step-Moves sys (publishing c deadline) =
      locked-Moves sys c.current _ (abandon clock c) (publish clock c)
        (abandon-Missing c _ sys.shared (λ j. refl))
        (λ r. publish-Local clock c deadline r sys.shared)
  step-Moves sys (stopping_up c e) =
      locked-Moves sys c.current _ (abandon clock c) (stop_up c e)
        (abandon-Missing c _ sys.shared (λ j. refl)) (λ r. stop_up-Local c e r sys.shared)
  step-Moves sys (settling c answer e) =
      locked-Moves sys c.current _ (abandon clock c) (settle clock c answer e)
        (abandon-Missing c _ sys.shared (λ j. refl))
        (λ r. settle-Local clock c answer e r sys.shared)
  step-Moves sys (raising c e) =
      let facts = abandon-held clock c (translated sys.shared.shutdown e) sys.shared in
      record {
        calm = λ u. (facts c.current).2;
        flag = (facts c.current).1;
        conserves = λ a u h j. omega (arith, (facts j).0);
        keeps = λ a u f. f;
      }
  step-Moves sys (leasing c) =
      locked-Moves sys c.current _ (abandon clock c) (take_lease clock sys.manifest c)
        (abandon-Missing c _ sys.shared (λ j. refl))
        (λ r. take_lease-Local clock sys.manifest c r sys.shared)
  step-Moves sys (holding ids) = record {
    calm = λ u. refl;
    flag = refl;
    conserves = λ a u h j. omega (arith, count-reverse j ids);
    keeps = λ a u f. f;
  }
  step-Moves sys (giving now (i ∷ ids) after) =
      locked-Moves sys i _ leaves (give_lease now ids after)
        (left_Missing i (giving now (i ∷ ids) after) (key_error i) sys.shared
          (inl (ground (arith, String-Eq.agrees i i))))
        (λ r. give_lease-Local now i ids after r sys.shared)
  step-Moves sys (giving now [] (some (started, e))) = alone-Moves _ _ sys refl (λ j. refl)
  step-Moves sys (giving now [] none) = alone-Moves _ _ sys refl (λ j. refl)
  step-Moves sys (rolling (i ∷ ids) e) =
      locked-Moves sys i _ leaves (roll_back ids e)
        (left_Missing i (rolling (i ∷ ids) e) (key_error i) sys.shared (inr (λ j. refl)))
        (λ r. roll_back-Local i ids e r sys.shared)
  step-Moves sys (rolling [] e) = alone-Moves _ _ sys refl (λ j. refl)
  step-Moves sys (scanning now (i ∷ ids) protected) =
      locked-Moves sys i _ leaves (scan sys.manifest now ids protected i)
        (left_Missing i (scanning now (i ∷ ids) protected) (key_error i) sys.shared
          (inr (λ j. refl)))
        (λ r. scan-Local sys.manifest now i ids protected r sys.shared)
  step-Moves sys (scanning now [] protected) = alone-Moves _ _ sys refl (λ j. refl)
  step-Moves sys (reaping now (i ∷ ids) protected) =
      locked-Moves sys i _ leaves (reap now ids protected i)
        (left_Missing i (reaping now (i ∷ ids) protected) (key_error i) sys.shared
          (inr (λ j. refl)))
        (λ r. reap-Local now i ids protected r sys.shared)
  step-Moves sys (reaping now [] protected) = alone-Moves _ _ sys refl (λ j. refl)
  step-Moves sys (pinning i b) =
      locked-Moves sys i _ leaves (pin b)
        (left_Missing i (pinning i b) (key_error i) sys.shared (inr (λ j. refl)))
        (λ r. pin-Local i b r sys.shared)
  step-Moves sys (failing i) =
      locked-Moves sys i _ leaves fail
        (left_Missing i (failing i) (key_error i) sys.shared (inr (λ j. refl)))
        (λ r. fail-Local i r sys.shared)
  step-Moves sys (shutting (i ∷ ids)) =
      locked-Moves sys i _ leaves (shut ids)
        (left_Missing i (shutting (i ∷ ids)) (key_error i) sys.shared (inr (λ j. refl)))
        (λ r. shut-Local i ids r sys.shared)
  step-Moves sys (shutting []) = alone-Moves _ _ sys refl (λ j. refl)
  step-Moves sys (ended outcome) = record {
    calm = λ u. u;
    flag = refl;
    conserves = λ a u h j. refl;
    keeps = λ a u f. f;
  }
