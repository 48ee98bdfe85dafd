-- ===== src/Supervisor/Threads/Down.antt =====
-- What each section keeps of a service that `shutdown` has visited.
use project_firestarter.Prelude.{
  ℕ, String, String-Eq, ◌==◌, ◌≡◌, refl, subst, arith, Bool, true, false, Bool-cases, Option-cases,
  inl, inr, List, Option, none, some, lookup, insert, lookup-insert,
}
use project_firestarter.Supervisor.Spec.{Raised, Manifest, ServiceSpec, stopped, draining, failed}
use project_firestarter.Supervisor.Runtime.{Time, Adapter, Runtime, Shared, System, transition}
use project_firestarter.Supervisor.Machine.{
  Call, Thread, shutting, locked, enter, start_up, poll, publish, stop_up, settle, take_lease,
  give_lease, roll_back,
}
use project_firestarter.Supervisor.Reaper.{scan, reap, complete_stop, pin, fail, shut}

abbrev pub is_down : {T : Type 0} → Runtime T → Bool
is_down r = elim r.state [ stopped ↦ true | failed ↦ true | _ ↦ false ]

-- A section keeps a service down when the supervisor is shut down.
abbrev Down : {T A : Type 0} → Runtime T → Shared A → Thread T × (Runtime T × Shared A) → Type 0
Down r sh out = sh.shutdown ≡ true → is_down r ≡ true → is_down out.1.0 ≡ true

-- The adapter stops services without an exception.
abbrev pub Stops : {T A : Type 0} → Adapter T A → Type 0
Stops {A = A} lifecycle = (s : ServiceSpec) (a : A) → (lifecycle.stop s a).0 ≡ none

module _ {T A : Type 0} ⦃time : Time T⦄ ⦃lifecycle : Adapter T A⦄ (clock : ℕ → T) where
  pub enter-Down :
      (c : Call T) (deadline : T) (waited : Bool) (r : Runtime T) (sh : Shared A)
      → Down r sh (enter clock c deadline waited r sh)
  unfolding enter
  enter-Down c deadline waited r sh f d = ground (arith, f, d)

  pub start_up-Down :
      (c : Call T) (deadline : T) (r : Runtime T) (sh : Shared A)
      → Down r sh (start_up clock c deadline r sh)
  unfolding start_up
  start_up-Down c deadline r sh f d = ground (arith, f, d)

  pub poll-Down :
      (c : Call T) (deadline : T) (r : Runtime T) (sh : Shared A)
      → Down r sh (poll clock c deadline r sh)
  unfolding poll
  poll-Down c deadline r sh f d = ground (arith, f, d)

  pub publish-Down : (c : Call T) (r : Runtime T) (sh : Shared A) → Down r sh (publish clock c r sh)
  unfolding publish
  publish-Down c r sh f d = ground (arith, f, d)

  pub settle-Down :
      (c : Call T) (answer : Option Raised) (e : Raised) (r : Runtime T) (sh : Shared A)
      → Down r sh (settle clock c answer e r sh)
  unfolding settle transition
  settle-Down c answer e r sh f d = ground (arith, f, d)

  pub take_lease-Down :
      (m : Manifest) (c : Call T) (r : Runtime T) (sh : Shared A)
      → Down r sh (take_lease clock m c r sh)
  unfolding take_lease
  take_lease-Down m c r sh f d = ground (arith, f, d)

module _ {T A : Type 0} where
  pub give_lease-Down :
      (now : T) (rest : List String) (after : Option (List String × Raised)) (r : Runtime T)
      (sh : Shared A)
      → Down r sh (give_lease now rest after r sh)
  unfolding give_lease
  give_lease-Down now rest after r sh f d = ground (arith, f, d)

module _ {T A : Type 0} ⦃time : Time T⦄ ⦃lifecycle : Adapter T A⦄ where
  pub stop_up-Down :
      (c : Call T) (e : Raised) (r : Runtime T) (sh : Shared A) → Down r sh (stop_up c e r sh)
  unfolding stop_up
  stop_up-Down c e r sh f d = ground (arith, f, d)

  pub roll_back-Down :
      (rest : List String) (e : Raised) (r : Runtime T) (sh : Shared A)
      → Down r sh (roll_back rest e r sh)
  unfolding roll_back transition
  roll_back-Down rest e r sh f d = ground (arith, f, d)

  pub scan-Down :
      (m : Manifest) (now : T) (i : String) (rest protected : List String) (r : Runtime T)
      (sh : Shared A)
      → Down r sh (scan m now rest protected i r sh)
  unfolding scan
  scan-Down m now i rest protected r sh f d = ground (arith, f, d)

  pub reap-Down :
      (now : T) (i : String) (rest protected : List String) (r : Runtime T) (sh : Shared A)
      → Down r sh (reap now rest protected i r sh)
  unfolding reap complete_stop transition
  reap-Down now i rest protected r sh f d = ground (arith, f, d)

  pub pin-Down : (v : Bool) (r : Runtime T) (sh : Shared A) → Down r sh (pin v r sh)
  unfolding pin
  pin-Down v r sh f d = ground (arith, f, d)

  pub fail-Down : (r : Runtime T) (sh : Shared A) → Down r sh (fail r sh)
  unfolding fail transition
  fail-Down r sh f d = ground (arith, f, d)

  pub shut-is_down :
      Stops lifecycle
      → (rest : List String) (r : Runtime T) (sh : Shared A) → is_down (shut rest r sh).1.0 ≡ true
  unfolding shut transition
  shut-is_down k rest r sh =
      ground (arith, k r.spec (transition r draining "supervisor-shutdown" sh).1.adapter)

  pub shut-shutting :
      Stops lifecycle
      → (rest : List String) (r : Runtime T) (sh : Shared A) → (shut rest r sh).0 ≡ shutting rest
  unfolding shut
  shut-shutting k rest r sh =
      ground (arith, k r.spec (transition r draining "supervisor-shutdown" sh).1.adapter)

  pub shut-Down :
      Stops lifecycle
      → (rest : List String) (r : Runtime T) (sh : Shared A) → Down r sh (shut rest r sh)
  shut-Down k rest r sh f d = shut-is_down k rest r sh

module _ {T A : Type 0} where
  -- The state is down if the service is known.
  abbrev pub DownAt : String → System T A → Type 0
  DownAt i sys = (r : Runtime T) → lookup sys.runtimes i ≡ some r → is_down r ≡ true

  pub locked-some :
      (sys : System T A) (j : String) (r : Runtime T)
      (missing : Raised → Shared A → Thread T × Shared A)
      (body : Runtime T → Shared A → Thread T × (Runtime T × Shared A))
      → lookup sys.runtimes j ≡ some r
      → locked sys j missing body ≡ (
        (body r sys.shared).0,
        record sys {
          runtimes = insert sys.runtimes j (body r sys.shared).1.0;
          shared = (body r sys.shared).1.1;
        },
      )
  unfolding locked
  locked-some sys j r missing body e = rw (locked, e) refl

  pub locked-Down :
      (sys : System T A) (i j : String) (missing : Raised → Shared A → Thread T × Shared A)
      (body : Runtime T → Shared A → Thread T × (Runtime T × Shared A))
      → ((r : Runtime T) → Down r sys.shared (body r sys.shared))
      → sys.shared.shutdown ≡ true
      → DownAt i sys
      → DownAt i (locked sys j missing body).1
  unfolding locked
  locked-Down sys i j missing body k f d = elim (Option-cases (lookup sys.runtimes j)) [
    | inl e ↦ rw (locked, e) d
    | inr (r, e) ↦
        rw (locked, e)
          (λ r' q. elim (Bool-cases (j == i)) [
            | inl y ↦
                let same : j ≡ i = (String-Eq.agrees j i).0 y in
                cc (
                  k r f (d r (subst (λ z. lookup sys.runtimes z ≡ some r) same e)),
                  rw (lookup-insert sys.runtimes j i (body r sys.shared).1.0, y) at q,
                )
            | inr n ↦ d r' (rw (lookup-insert sys.runtimes j i (body r sys.shared).1.0, n) at q)
          ])
  ]
