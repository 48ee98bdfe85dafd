-- ===== src/Supervisor/Threads/Shutdown.antt =====
-- A call of `shutdown`, its steps interleaved with those of any other threads.
use project_firestarter.Prelude.{
  ℕ, zero, suc, ◌≤◌, String, String-Eq, ◌==◌, ◌≡◌, refl, sym, ap, subst, ◌∙◌, arith, true, false,
  Bool-cases, if◌then◌else◌, nat_eq, nat_eq_iff, inl, inr, length, length-reverse, List, [], ◌∷◌,
  member, member-reverse, All, All_map, All-reverse, reverse, Option, none, some, lookup,
  lookup-insert_self,
}
use project_firestarter.Supervisor.Runtime.{Time, Adapter, Runtime, System}
use project_firestarter.Supervisor.Machine.{Thread, shutting, leaves}
use project_firestarter.Supervisor.Reaper.{shut}
use project_firestarter.Supervisor.Threads.{
  World, Turn, call, run, shutdown, step, step_at, begin, turn, run_all,
}
use project_firestarter.Supervisor.Threads.Leases.{step_at-Steps}
use project_firestarter.Supervisor.Threads.StaysDown.{begin-kept, run_all-Down}
use project_firestarter.Supervisor.Threads.Known.{Known, same_runtimes, step_at-Known}
use project_firestarter.Supervisor.Threads.Down.{
  is_down, Stops, DownAt, shut-is_down, locked-some, shut-shutting,
}

-- The position of a thread after some turns: a call puts its thread before the others.
abbrev pub position : ℕ → List Turn → ℕ
position k [] = k
position k (call q ∷ turns) = position (suc k) turns
position k (run j ∷ turns) = position k turns

-- How many of the turns are steps of the thread that is at position `k` before them.
abbrev pub steps_of : ℕ → List Turn → ℕ
steps_of k [] = 0
steps_of k (call q ∷ turns) = steps_of (suc k) turns
steps_of k (run j ∷ turns) = let rest = steps_of k turns in if nat_eq j k then suc rest else rest

-- A thread by its position.
abbrev pub thread_at : {T : Type 0} → List (Thread T) → ℕ → Option (Thread T)
thread_at [] k = none
thread_at (t ∷ ts) zero = some t
thread_at (t ∷ ts) (suc k) = thread_at ts k

module _ {T A : Type 0} ⦃time : Time T⦄ ⦃lifecycle : Adapter T A⦄ (clock : ℕ → T)
    (stops : Stops lifecycle) (i : String) where
  -- The turn of one thread leaves the others as they are.
  other_thread :
      (sys : System T A) (ts : List (Thread T)) (j k : ℕ)
      → nat_eq j k ≡ false
      → thread_at (step_at clock sys ts j).0 k ≡ thread_at ts k
  unfolding step_at
  other_thread sys [] j k n = refl
  other_thread sys (t ∷ ts) zero zero n = cc
  other_thread sys (t ∷ ts) zero (suc k) n = refl
  other_thread sys (t ∷ ts) (suc j) zero n = refl
  other_thread sys (t ∷ ts) (suc j) (suc k) n = other_thread sys ts j k (ground (arith, n))

  -- The turn of a thread is its step.
  own_thread :
      (sys : System T A) (ts : List (Thread T)) (k : ℕ) {t : Thread T}
      → thread_at ts k ≡ some t
      → (thread_at (step_at clock sys ts k).0 k ≡ some (step clock sys t).0)
        × ((step_at clock sys ts k).1 ≡ (step clock sys t).1)
  unfolding step_at
  own_thread sys [] k h = cc
  own_thread sys (u ∷ ts) zero {t} h =
      let same : u ≡ t = cc in
      (ap (λ v. some (step clock sys v).0) same, ap (λ v. (step clock sys v).1) same)
  own_thread sys (u ∷ ts) (suc k) h = own_thread sys ts k h

  -- One step of the thread of `shutdown`.
  shutting-step :
      (sys : System T A) (j : String) (rest : List String)
      → Known sys j
      → ((step clock sys (shutting (j ∷ rest))).0 ≡ shutting rest)
        × DownAt j (step clock sys (shutting (j ∷ rest))).1
  unfolding step
  shutting-step sys j rest (r, e) =
      let r' = (shut rest r sys.shared).1.0 in
      subst (λ out. (out.0 ≡ shutting rest) × DownAt j out.1)
        (sym (locked-some sys j r leaves (shut rest) e))
        (
          shut-shutting stops rest r sys.shared,
          λ r'' q. cc (
            shut-is_down stops rest r sys.shared,
            rw (lookup-insert_self sys.runtimes j r') at q,
          ),
        )

  -- While the thread of `shutdown` has services to visit, of which `i` is one.
  shutting-Down :
      (w : World T A) (turns : List Turn) (k : ℕ) (ids : List String)
      → w.system.shared.shutdown ≡ true
      → All (Known w.system) ids
      → thread_at w.threads k ≡ some (shutting ids)
      → length ids ≤ steps_of k turns
      → member i ids ≡ true
      → DownAt i (run_all clock w turns).system
  unfolding run_all turn
  shutting-Down w turns k [] f a h n m = cc
  shutting-Down w [] k (j ∷ ids) f a h n m = absurd (omega (arith, n))
  shutting-Down w (call q ∷ turns) k (j ∷ ids) f a h n m =
      let (same, flag) = begin-kept clock stops i w.system q in
      shutting-Down (turn clock w (call q)) turns (suc k) (j ∷ ids) (flag f)
        (All_map (λ x. same_runtimes w.system (begin clock w.system q).1 x same) (j ∷ ids) a) h n m
  shutting-Down w (run l ∷ turns) k (j ∷ ids) f a h n m =
      let w' = turn clock w (run l) in
      let f' : w'.system.shared.shutdown ≡ true =
        (step_at-Steps clock w.system w.threads l).flag ∙ f in
      let kept : (x : String) → Known w.system x → Known w'.system x =
        λ x. step_at-Known clock w.system w.threads l x in
      elim (Bool-cases (nat_eq l k)) [
        | inr other ↦
            shutting-Down w' turns k (j ∷ ids) f' (All_map kept (j ∷ ids) a)
              (other_thread w.system w.threads l k other ∙ h) (rw other at n) m
        | inl own ↦
            let same : l ≡ k = (nat_eq_iff l k).0 own in
            let (t, sys) = own_thread w.system w.threads k h in
            let (next, down) = shutting-step w.system j ids a.0 in
            elim (Bool-cases (i == j)) [
              | inl y ↦ run_all-Down clock stops i w' turns f' (
                  subst (λ x. DownAt i (step_at clock w.system w.threads x).1) (sym same)
                    (subst (DownAt i) (sym sys) (
                      subst (λ z. DownAt z (step clock w.system (shutting (j ∷ ids))).1)
                        (sym ((String-Eq.agrees i j).0 y)) down)))
              | inr later ↦
                  shutting-Down w' turns k ids f' (All_map kept ids a.1)
                    (subst
                      (λ x.
                        thread_at (step_at clock w.system w.threads x).0 k ≡ some (shutting ids))
                      (sym same) (t ∙ ap (λ v. some v) next))
                    (omega (arith, rw own at n)) (rw later at m)
            ]
      ]

-- When the adapter stops services without an exception: in any schedule after a call of `shutdown`
-- that lets the call's thread make a step for each service of the order, with any calls and steps of
-- any other threads between and after these, each service of the order is stopped or failed at the end.
pub shutdown-Down :
    {T A : Type 0} ⦃time : Time T⦄ ⦃lifecycle : Adapter T A⦄ (clock : ℕ → T)
    → Stops lifecycle
    → (w : World T A) (turns : List Turn) (i : String)
    → All
        (λ j. (r : Runtime T) × (lookup w.system.runtimes j ≡ some r))
        w.system.manifest.topological_order
    → member i w.system.manifest.topological_order ≡ true
    → length w.system.manifest.topological_order ≤ steps_of 0 turns
    → (r : Runtime T) → lookup (run_all clock w (call shutdown ∷ turns)).system.runtimes i ≡ some r
    → is_down r ≡ true
unfolding run_all turn begin
shutdown-Down clock stops w turns i known h n =
    let order = w.system.manifest.topological_order in
    shutting-Down clock stops i (turn clock w (call shutdown)) turns 0 (reverse order) refl
      (All-reverse _ order known) refl (rw (length-reverse order) n) (member-reverse i order ∙ h)
