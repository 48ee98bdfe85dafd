-- ===== src/Supervisor/Threads/Local.antt =====
-- What the section of each step does to the leases and to the state of its service.
use project_firestarter.Prelude.{
  count, count-append, count-reverse, ℕ, ◌+◌, ◌≤◌, String, String-Eq, ◌==◌, ◌≡◌, refl, arith, Bool,
  true, false, List, [], ◌∷◌, ◌++◌, Option, ◌||◌, nat_eq,
}
use project_firestarter.Supervisor.Spec.{
  Raised, wake_error, ServiceState, stopped, starting, ready, draining, failed, Manifest,
}
use project_firestarter.Supervisor.Runtime.{Time, Adapter, Runtime, Shared, transition}
use project_firestarter.Supervisor.Machine.{
  Call, Thread, entering, starting_up, polling, publishing, stopping_up, settling, raising, leasing,
  holding, giving, rolling, scanning, reaping, pinning, failing, shutting, ended, abandon,
  next_service, enter, start_up, poll, publish, stop_up, settle, take_lease, give_lease, roll_back,
}
use project_firestarter.Supervisor.Reaper.{scan, reap, complete_stop, pin, fail, shut}

-- The services that a thread holds a lease of.
abbrev pub held : {T : Type 0} → Thread T → List String
held (entering c deadline waited) = c.acquired
held (starting_up c deadline) = c.acquired
held (polling c deadline) = c.acquired
held (publishing c deadline) = c.acquired
held (stopping_up c e) = c.acquired
held (settling c answer e) = c.acquired
held (raising c e) = c.acquired
held (leasing c) = c.acquired
held (holding ids) = ids
held (giving now ids after) = ids
held (rolling ids e) = []
held (scanning now ids protected) = []
held (reaping now ids protected) = []
held (pinning i b) = []
held (failing i) = []
held (shutting ids) = []
held (ended outcome) = []

-- What remains of `shutdown`.
abbrev pub shuts : {T : Type 0} → Thread T → Bool
shuts (shutting ids) = true
shuts _ = false

-- A service with leases is starting, ready or failed.
abbrev pub in_use : ServiceState → Bool
in_use stopped = false
in_use starting = true
in_use ready = true
in_use draining = false
in_use failed = true

abbrev pub fine : {T : Type 0} → Runtime T → Bool
fine r = nat_eq r.leases 0 || in_use r.state

module _ {T A : Type 0} where
  -- From thread `t` and a runtime of service `i` to another thread and runtime, while the supervisor
  -- is not shut down.
  pub record Local (i : String) (t : Thread T) (r : Runtime T) (sh : Shared A)
      (out : Thread T × (Runtime T × Shared A)) : Type 0 where
    pub calm : shuts t ≡ false → shuts out.0 ≡ false
    pub flag : out.1.1.shutdown ≡ sh.shutdown
    pub own :
        sh.shutdown ≡ false
        → shuts t ≡ false
        → count i (held t) ≤ r.leases
        → count i (held out.0) + r.leases ≡ count i (held t) + out.1.0.leases
    pub other : (j : String) → (j == i) ≡ false → count j (held out.0) ≡ count j (held t)
    pub keeps : sh.shutdown ≡ false → shuts t ≡ false → fine r ≡ true → fine out.1.0 ≡ true

module _ {T A : Type 0} ⦃time : Time T⦄ ⦃lifecycle : Adapter T A⦄ (clock : ℕ → T) where
  pub abandon-held :
      (c : Call T) (e : Raised) (sh : Shared A) (i : String)
      → (count i (held (abandon clock c e sh).0) ≡ count i c.acquired)
        × ((abandon clock c e sh).1.shutdown ≡ sh.shutdown)
        × (shuts (abandon clock c e sh).0 ≡ false)
  unfolding abandon
  abandon-held c e sh i = (count-reverse i c.acquired, refl, refl)

  pub enter-Local :
      (c : Call T) (deadline : T) (waited : Bool) (r : Runtime T) (sh : Shared A)
      → Local c.current (entering c deadline waited) r sh (enter clock c deadline waited r sh)
  unfolding enter transition abandon
  enter-Local c deadline waited r sh = record {
    calm = λ u. ground arith;
    flag = ground arith;
    own = λ a u b. ground (arith, count-reverse c.current c.acquired);
    other = λ j n. ground (arith, count-reverse j c.acquired);
    keeps = λ a u b. ground (arith, b);
  }

  pub publish-Local :
      (c : Call T) (deadline : T) (r : Runtime T) (sh : Shared A)
      → Local c.current (publishing c deadline) r sh (publish clock c r sh)
  unfolding publish transition
  publish-Local c deadline r sh = record {
    calm = λ u. ground arith;
    flag = ground arith;
    own = λ a u b. ground arith;
    other = λ j n. ground arith;
    keeps = λ a u b. ground (arith, b);
  }

  pub settle-Local :
      (c : Call T) (answer : Option Raised) (e : Raised) (r : Runtime T) (sh : Shared A)
      → Local c.current (settling c answer e) r sh (settle clock c answer e r sh)
  unfolding settle transition abandon
  settle-Local c answer e r sh = record {
    calm = λ u. ground arith;
    flag = ground arith;
    own = λ a u b. ground (arith, count-reverse c.current c.acquired);
    other = λ j n. ground (arith, count-reverse j c.acquired);
    keeps = λ a u b. ground (arith, b);
  }

  pub start_up-Local :
      (c : Call T) (deadline : T) (r : Runtime T) (sh : Shared A)
      → Local c.current (starting_up c deadline) r sh (start_up clock c deadline r sh)
  unfolding start_up
  start_up-Local c deadline r sh = record {
    calm = λ u. ground arith;
    flag = ground arith;
    own = λ a u b. ground arith;
    other = λ j n. ground arith;
    keeps = λ a u b. ground (arith, b);
  }

  pub poll-Local :
      (c : Call T) (deadline : T) (r : Runtime T) (sh : Shared A)
      → Local c.current (polling c deadline) r sh (poll clock c deadline r sh)
  unfolding poll
  poll-Local c deadline r sh = record {
    calm = λ u. ground arith;
    flag = ground arith;
    own = λ a u b. ground arith;
    other = λ j n. ground arith;
    keeps = λ a u b. ground (arith, b);
  }

  pub next_service-held :
      (m : Manifest) (ids : List String) (overall : T) (acquired begun : List String)
      (sh : Shared A) (i : String)
      → (count i (held (next_service clock m ids overall acquired begun sh).0) ≡ count i acquired)
        × ((next_service clock m ids overall acquired begun sh).1.shutdown ≡ sh.shutdown)
        × (shuts (next_service clock m ids overall acquired begun sh).0 ≡ false)
  unfolding next_service abandon
  next_service-held m [] overall acquired begun sh i = (refl, refl, refl)
  next_service-held m (j ∷ rest) overall acquired begun sh i =
      (ground (arith, count-reverse i acquired), ground arith, ground arith)

  pub take_lease-Local :
      (m : Manifest) (c : Call T) (r : Runtime T) (sh : Shared A)
      → Local c.current (leasing c) r sh (take_lease clock m c r sh)
  unfolding take_lease
  take_lease-Local m c r sh =
      let taken = c.acquired ++ (c.current ∷ []) in
      let on = next_service-held m c.rest c.overall_deadline taken c.started sh in
      let lost = abandon-held c (wake_error "service left READY before lease acquisition") sh in
      record {
        calm = λ u. ground (arith, (on c.current).2, (lost c.current).2);
        flag = ground (arith, (on c.current).1, (lost c.current).1);
        own = λ a u b. ground (
          arith,
          (on c.current).0,
          (lost c.current).0,
          count-append c.current c.acquired (c.current ∷ []),
          String-Eq.agrees c.current c.current,
        );
        other = λ j n.
            ground (arith, (on j).0, (lost j).0, count-append j c.acquired (c.current ∷ []), n);
        keeps = λ a u b. ground (arith, b);
      }

module _ {T A : Type 0} where
  pub give_lease-Local :
      (now : T) (i : String) (rest : List String) (after : Option (List String × Raised))
      (r : Runtime T) (sh : Shared A)
      → Local i (giving now (i ∷ rest) after) r sh (give_lease now rest after r sh)
  unfolding give_lease
  give_lease-Local now i rest after r sh = record {
    calm = λ u. ground (arith, String-Eq.agrees i i);
    flag = ground (arith, String-Eq.agrees i i);
    own = λ a u b. ground (arith, String-Eq.agrees i i);
    other = λ j n. ground (arith, n);
    keeps = λ a u b. ground (arith, b);
  }

module _ {T A : Type 0} ⦃time : Time T⦄ ⦃lifecycle : Adapter T A⦄ where
  pub stop_up-Local :
      (c : Call T) (e : Raised) (r : Runtime T) (sh : Shared A)
      → Local c.current (stopping_up c e) r sh (stop_up c e r sh)
  unfolding stop_up
  stop_up-Local c e r sh = record {
    calm = λ u. ground (arith);
    flag = ground (arith);
    own = λ a u b. ground (arith);
    other = λ j n. ground (arith);
    keeps = λ a u b. ground (arith, b);
  }

  pub roll_back-Local :
      (i : String) (rest : List String) (e : Raised) (r : Runtime T) (sh : Shared A)
      → Local i (rolling (i ∷ rest) e) r sh (roll_back rest e r sh)
  unfolding roll_back transition
  roll_back-Local i rest e r sh = record {
    calm = λ u. ground (arith);
    flag = ground (arith);
    own = λ a u b. ground (arith);
    other = λ j n. ground (arith);
    keeps = λ a u b. ground (arith, b);
  }

  pub scan-Local :
      (m : Manifest) (now : T) (i : String) (rest protected : List String) (r : Runtime T)
      (sh : Shared A)
      → Local i (scanning now (i ∷ rest) protected) r sh (scan m now rest protected i r sh)
  unfolding scan
  scan-Local m now i rest protected r sh = record {
    calm = λ u. ground (arith);
    flag = ground (arith);
    own = λ a u b. ground (arith);
    other = λ j n. ground (arith);
    keeps = λ a u b. ground (arith, b);
  }

  pub reap-Local :
      (now : T) (i : String) (rest protected : List String) (r : Runtime T) (sh : Shared A)
      → Local i (reaping now (i ∷ rest) protected) r sh (reap now rest protected i r sh)
  unfolding reap complete_stop transition
  reap-Local now i rest protected r sh = record {
    calm = λ u. ground (arith);
    flag = ground (arith);
    own = λ a u b. ground (arith);
    other = λ j n. ground (arith);
    keeps = λ a u b. ground (arith, b);
  }

  pub pin-Local :
      (i : String) (v : Bool) (r : Runtime T) (sh : Shared A)
      → Local i (pinning i v) r sh (pin v r sh)
  unfolding pin
  pin-Local i v r sh = record {
    calm = λ u. ground (arith);
    flag = ground (arith);
    own = λ a u b. ground (arith);
    other = λ j n. ground (arith);
    keeps = λ a u b. ground (arith, b);
  }

  pub fail-Local :
      (i : String) (r : Runtime T) (sh : Shared A) → Local i (failing i) r sh (fail r sh)
  unfolding fail transition
  fail-Local i r sh = record {
    calm = λ u. ground (arith);
    flag = ground (arith);
    own = λ a u b. ground (arith);
    other = λ j n. ground (arith);
    keeps = λ a u b. ground (arith, b);
  }

  pub shut-Local :
      (i : String) (rest : List String) (r : Runtime T) (sh : Shared A)
      → Local i (shutting (i ∷ rest)) r sh (shut rest r sh)
  unfolding shut transition
  shut-Local i rest r sh = record {
    calm = λ u. ground (arith);
    flag = ground (arith);
    own = λ a u b. ground (arith);
    other = λ j n. ground (arith);
    keeps = λ a u b. ground (arith, b);
  }
