-- ===== src/Supervisor/Threads/Leases.antt =====
-- The leases of a supervisor in all interleavings of its threads.
use project_firestarter.Prelude.{
  count, ℕ, zero, suc, ◌+◌, ◌≤◌, ◌<◌, String, String-Eq, ◌==◌, ◌≡◌, refl, sym, ap, subst, ◌∙◌,
  arith, true, false, Bool-cases, Option-cases, inl, inr, List, [], ◌∷◌, Option, some, lookup, All,
  In, here, there, member, ◌≢◌, map, length,
}
use project_firestarter.Supervisor.Spec.{Raised, stopped, draining, ServiceSpec, Manifest}
use project_firestarter.Supervisor.Dag.{Walk, returned, raised, out_of_fuel, closure}
use project_firestarter.Supervisor.Runtime.{
  Time, Adapter, Runtime, System, tick, supervisor_init, initial_runtime,
}
use project_firestarter.Supervisor.Machine.{Thread, ended}
use project_firestarter.Supervisor.Threads.{
  World, Turn, call, run, Request, acquire, mark_failed, set_retain, reap_idle, shutdown, step_at,
  begin, begin_acquire, acquire_all, turn, run_all, initial,
}
use project_firestarter.Supervisor.Threads.Local.{held, shuts, fine, in_use, next_service-held}
use project_firestarter.Supervisor.Threads.Moves.{leases_of, AllFine, step-Moves}

-- The leases of service `i` that the threads hold.
abbrev pub holders : {T : Type 0} → String → List (Thread T) → ℕ
holders i [] = 0
holders i (t ∷ ts) = count i (held t) + holders i ts

holders-In :
    {T : Type 0} (i : String) {t : Thread T} {ts : List (Thread T)}
    → In t ts
    → count i (held t) ≤ holders i ts
holders-In i (here {xs = ts}) = omega arith
holders-In i (there {x = x} p) = omega (arith, holders-In i p)

member-count : (i : String) (xs : List String) → member i xs ≡ true → 0 < count i xs
member-count i [] h = cc
member-count i (x ∷ xs) h = ground (arith, h, member-count i xs)

holders-ended :
    {T : Type 0} (i : String) (ts : List (Thread T))
    → All (λ t. (outcome : Option Raised) × (t ≡ ended outcome)) ts
    → holders i ts ≡ 0
holders-ended i [] p = refl
holders-ended i (t ∷ ts) ((o, e), p) = rw e (omega (arith, holders-ended i ts p))

module _ {T A : Type 0} where
  -- The same for the list of all threads.
  pub record Steps (ts : List (Thread T)) (sys : System T A) (out : List (Thread T) × System T A)
      : Type 0 where
    calm : All (λ t. shuts t ≡ false) ts → All (λ t. shuts t ≡ false) out.0
    pub flag : out.1.shared.shutdown ≡ sys.shared.shutdown
    conserves :
        sys.shared.shutdown ≡ false
        → All (λ t. shuts t ≡ false) ts
        → ((i : String) → holders i ts ≤ leases_of sys.runtimes i)
        → (j : String)
        → holders j out.0 + leases_of sys.runtimes j ≡ holders j ts + leases_of out.1.runtimes j
    keeps :
        sys.shared.shutdown ≡ false
        → All (λ t. shuts t ≡ false) ts
        → AllFine sys.runtimes
        → AllFine out.1.runtimes

  -- The supervisor counts the leases that the threads hold, and a service with leases is in use.
  pub record Sound (w : World T A) : Type 0 where
    pub calm : All (λ t. shuts t ≡ false) w.threads
    pub counted : (i : String) → holders i w.threads ≡ leases_of w.system.runtimes i
    pub all_fine : AllFine w.system.runtimes

-- A new supervisor has no threads and no leases.
initial_leases :
    {T : Type 0} (services : List (String × ServiceSpec)) (i : String)
    → (leases_of {T = T} (map (λ e. (e.0, initial_runtime e.1)) services) i ≡ 0)
      × ((r : Runtime T)
          → lookup (map (λ e. (e.0, initial_runtime e.1)) services) i ≡ some r
          → fine r ≡ true)
unfolding initial_runtime lookup
initial_leases [] i = (refl, λ r h. cc)
initial_leases {T = T} ((j, s) ∷ services) i = elim (Bool-cases (j == i)) [
  | inl y ↦ (ground (arith, y), λ r h. ground (arith, y, h))
  | inr n ↦
      let (a, b) = initial_leases {T = T} services i in
      (ground (arith, n, a), λ r h. b r (rw (n, lookup) at h))
]

module _ {T A : Type 0} where
  initial-Sound : (m : Manifest) (a : A) → Sound {T = T} (initial m a)
  unfolding initial supervisor_init
  initial-Sound m a = record {
    calm = tt;
    counted = λ i. sym (initial_leases m.services i).0;
    all_fine = λ i r h. (initial_leases m.services i).1 r h;
  }

module _ {T A : Type 0} ⦃time : Time T⦄ ⦃lifecycle : Adapter T A⦄ (clock : ℕ → T) where
  pub step_at-Steps :
      (sys : System T A) (ts : List (Thread T)) (k : ℕ) → Steps ts sys (step_at clock sys ts k)
  unfolding step_at
  step_at-Steps sys [] k = record {
    calm = λ u. u;
    flag = refl;
    conserves = λ a u h j. refl;
    keeps = λ a u f. f;
  }
  step_at-Steps sys (t ∷ ts) zero =
      let m = step-Moves clock sys t in
      record {
        calm = λ u. (m.calm u.0, u.1);
        flag = m.flag;
        conserves = λ a u h j. omega (arith, m.conserves a u.0 (λ i. omega (arith, h i)) j);
        keeps = λ a u f. m.keeps a u.0 f;
      }
  step_at-Steps sys (t ∷ ts) (suc k) =
      let m = step_at-Steps sys ts k in
      record {
        calm = λ u. (u.0, m.calm u.1);
        flag = m.flag;
        conserves = λ a u h j. omega (arith, m.conserves a u.1 (λ i. omega (arith, h i)) j);
        keeps = λ a u f. m.keeps a u.1 f;
      }

  pub acquire_all-lem :
      (sys : System T A) (i : String) (w : Walk (List String))
      → ((acquire_all clock sys i w).1.shared.shutdown ≡ sys.shared.shutdown)
        × (shuts (acquire_all clock sys i w).0 ≡ false)
        × ((j : String) → count j (held (acquire_all clock sys i w).0) ≡ 0)
        × ((acquire_all clock sys i w).1.runtimes ≡ sys.runtimes)
  unfolding acquire_all
  acquire_all-lem sys i (raised e) = (refl, refl, λ j. refl, refl)
  acquire_all-lem sys i out_of_fuel = (refl, refl, λ j. refl, refl)
  acquire_all-lem sys i (returned ids) = elim (Option-cases (lookup sys.manifest.services i)) [
    | inl e ↦ rw (acquire_all, e) (refl, refl, λ j. refl, refl)
    | inr (target, e) ↦
        let (now, sh) = tick clock sys.shared in
        let n =
          next_service-held clock sys.manifest ids (time.plus_ms now target.wake_timeout_ms) [] []
            sh in
        rw (acquire_all, e) ((n i).1, (n i).2, λ j. (n j).0, refl)
  ]

  -- A call adds a thread that holds nothing, and only `shutdown` raises the flag.
  begin_lem :
      (sys : System T A) (q : Request)
      → (begin clock sys q).1.shared.shutdown ≡ false
      → (sys.shared.shutdown ≡ false)
        × (shuts (begin clock sys q).0 ≡ false)
        × ((i : String) → count i (held (begin clock sys q).0) ≡ 0)
        × ((begin clock sys q).1.runtimes ≡ sys.runtimes)
  unfolding begin begin_acquire
  begin_lem sys (acquire i) h =
      let (a, b, c, d) =
        acquire_all-lem sys i (closure sys.manifest (length sys.manifest.topological_order) i) in
      (sym a ∙ h, b, c, d)
  begin_lem sys (mark_failed i) h = (ground arith, ground arith, λ j. ground arith, ground arith)
  begin_lem sys (set_retain i b) h = (ground arith, ground arith, λ j. ground arith, ground arith)
  begin_lem sys reap_idle h = (ground arith, ground arith, λ j. ground arith, ground arith)
  begin_lem sys shutdown h = cc

  turn-Sound :
      (w : World T A) (t : Turn)
      → (turn clock w t).system.shared.shutdown ≡ false
      → (w.system.shared.shutdown ≡ false) × (Sound w → Sound (turn clock w t))
  unfolding turn
  turn-Sound w (call q) h =
      let (a, u, c, e) = begin_lem w.system q h in
      (
        a,
        λ s. record {
          calm = (u, s.calm);
          counted = λ i. omega (arith, c i, s.counted i, ap (λ l. leases_of l i) e);
          all_fine = subst AllFine (sym e) s.all_fine;
        },
      )
  turn-Sound w (run k) h =
      let m = step_at-Steps w.system w.threads k in
      let a : w.system.shared.shutdown ≡ false = sym m.flag ∙ h in
      (
        a,
        λ s. record {
          calm = m.calm s.calm;
          counted = λ i.
              omega (arith, m.conserves a s.calm (λ j. omega (arith, s.counted j)) i, s.counted i);
          all_fine = m.keeps a s.calm s.all_fine;
        },
      )

  run_all-Sound :
      (w : World T A) (turns : List Turn)
      → (run_all clock w turns).system.shared.shutdown ≡ false
      → (w.system.shared.shutdown ≡ false) × (Sound w → Sound (run_all clock w turns))
  unfolding run_all
  run_all-Sound w [] h = (h, λ s. s)
  run_all-Sound w (t ∷ ts) h =
      let (a, f) = run_all-Sound (turn clock w t) ts h in
      let (b, g) = turn-Sound w t a in (b, λ s. f (g s))

  runs-Sound :
      (m : Manifest) (a : A) (turns : List Turn)
      → (run_all clock (initial m a) turns).system.shared.shutdown ≡ false
      → Sound (run_all clock (initial m a) turns)
  runs-Sound m a turns h = (run_all-Sound (initial m a) turns h).1 (initial-Sound m a)

-- In every interleaving, until the supervisor is shut down, the count of leases of a service is the
-- number of leases that the threads hold of it.
pub run_all-holders :
    {T A : Type 0} ⦃time : Time T⦄ ⦃lifecycle : Adapter T A⦄ (clock : ℕ → T) (m : Manifest) (a : A)
    (turns : List Turn) (i : String)
    → (run_all clock (initial m a) turns).system.shared.shutdown ≡ false
    → holders i (run_all clock (initial m a) turns).threads
      ≡ leases_of (run_all clock (initial m a) turns).system.runtimes i
run_all-holders clock m a turns i h = (runs-Sound clock m a turns h).counted i

-- In every interleaving, until the supervisor is shut down, a service of which a thread holds a lease
-- is neither stopped nor draining.
pub run_all-stays_up :
    {T A : Type 0} ⦃time : Time T⦄ ⦃lifecycle : Adapter T A⦄ (clock : ℕ → T) (m : Manifest) (a : A)
    (turns : List Turn) (t : Thread T) (i : String)
    → (run_all clock (initial m a) turns).system.shared.shutdown ≡ false
    → In t (run_all clock (initial m a) turns).threads
    → member i (held t) ≡ true
    → (r : Runtime T) × (lookup (run_all clock (initial m a) turns).system.runtimes i ≡ some r)
      × (r.state ≢ stopped)
      × (r.state ≢ draining)
run_all-stays_up clock m a turns t i h p q =
    let w = run_all clock (initial m a) turns in
    let s = runs-Sound clock m a turns h in
    let held_here : 0 < leases_of w.system.runtimes i =
      omega (arith, s.counted i, holders-In i p, member-count i (held t) q) in
    elim (Option-cases (lookup w.system.runtimes i)) [
      | inl e ↦ absurd (ground (arith, e, held_here))
      | inr (r, e) ↦
          let f : in_use r.state ≡ true = ground (arith, e, held_here, s.all_fine i r e) in
          (r, e, λ k. cc (ap in_use k), λ k. cc (ap in_use k))
    ]

-- In every interleaving, until the supervisor is shut down: when every thread has returned or raised,
-- no service has a lease left.
pub run_all-ended :
    {T A : Type 0} ⦃time : Time T⦄ ⦃lifecycle : Adapter T A⦄ (clock : ℕ → T) (m : Manifest) (a : A)
    (turns : List Turn) (i : String) (r : Runtime T)
    → (run_all clock (initial m a) turns).system.shared.shutdown ≡ false
    → All
        (λ t. (outcome : Option Raised) × (t ≡ ended outcome))
        (run_all clock (initial m a) turns).threads
    → lookup (run_all clock (initial m a) turns).system.runtimes i ≡ some r
    → r.leases ≡ 0
run_all-ended clock m a turns i r h p e =
    let w = run_all clock (initial m a) turns in
    let s = runs-Sound clock m a turns h in
    ground (arith, e, s.counted i, holders-ended i w.threads p)
