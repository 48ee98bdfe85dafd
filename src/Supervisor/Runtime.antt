-- ===== src/Supervisor/Runtime.antt =====
-- The state of `ServiceSupervisor`: `_Runtime`, `Telemetry`, the lifecycle adapter, and the clock of
-- the host, which is read as a sequence of values.
use project_firestarter.Prelude.{
  ◌≡◌, arith, ℕ, suc, String, String-Eq, Bool, true, false, List, [], ◌∷◌, ◌++◌, map, Option, none,
  Dict, length, ltb, ◌⊎◌, if◌then◌else◌,
}
use project_firestarter.Supervisor.Spec.{
  Raised, ServiceState, stopped, starting, ready, draining, failed, ServiceSpec, Manifest,
}

-- The arithmetic on the clock's numbers that the code uses: `0.0`, `+`, `t + ms / 1000`, `min`,
-- `deadline - now <= 0`, `now >= deadline` and `now - since >= ms / 1000`.
pub record Time (T : Type 0) : Type 0 where
  pub nought : T
  pub plus : T → T → T
  pub plus_ms : T → ℕ → T
  pub earlier : T → T → T
  pub passed : T → T → Bool
  pub at_least : T → T → Bool
  pub lasted : T → T → ℕ → Bool

-- `LifecycleAdapter`. A call is given the clock's value, and may raise.
pub record Adapter (T A : Type 0) : Type 0 where
  pub start : T → ServiceSpec → A → Option Raised × A
  pub is_ready : T → ServiceSpec → A → (Raised ⊎ Bool) × A
  pub stop : ServiceSpec → A → Option Raised × A

pub record Runtime (T : Type 0) : Type 0 where
  pub spec : ServiceSpec
  pub state : ServiceState
  pub leases : ℕ
  pub retain : Bool
  pub ready_at : Option T
  pub last_release : Option T
  pub drain_deadline : Option T

pub record Transition : Type 0 where
  pub service_id : String
  pub from_state : ServiceState
  pub to_state : ServiceState
  pub reason : String

-- What a section of a service's condition does not protect: the telemetry, the adapter, the number
-- of times that the clock has been read, and the flag.
pub record Shared (A : Type 0) : Type 0 where
  pub events : List Transition
  pub adapter : A
  pub reads : ℕ
  pub shutdown : Bool

pub record System (T A : Type 0) : Type 0 where
  pub manifest : Manifest
  pub runtimes : Dict String (Runtime T)
  pub shared : Shared A

-- `==` of two states.
abbrev pub same_state : ServiceState → ServiceState → Bool
same_state stopped b = elim b [ stopped ↦ true | _ ↦ false ]
same_state starting b = elim b [ starting ↦ true | _ ↦ false ]
same_state ready b = elim b [ ready ↦ true | _ ↦ false ]
same_state draining b = elim b [ draining ↦ true | _ ↦ false ]
same_state failed b = elim b [ failed ↦ true | _ ↦ false ]

pub same_state_lem : (a b : ServiceState) → same_state a b ≡ true → a ≡ b
same_state_lem a b h = ground arith

abbrev drop_first {ℓ} : {A : Type ℓ} → List A → List A
drop_first [] = []
drop_first (x ∷ xs) = xs

-- `deque.append` with `maxlen`.
unfoldable pub push_event : List Transition → Transition → List Transition
push_event events e =
    let longer = events ++ (e ∷ []) in if ltb 512 (length longer) then drop_first longer else longer

-- `_runtimes` of `__init__`.
unfoldable pub initial_runtime : {T : Type 0} → ServiceSpec → Runtime T
initial_runtime spec = record {
  spec = spec;
  state = stopped;
  leases = 0;
  retain = spec.retain;
  ready_at = none;
  last_release = none;
  drain_deadline = none;
}

module _ {T A : Type 0} where
  -- `_transition`, with `Telemetry.transition`.
  unfoldable pub transition : Runtime T → ServiceState → String → Shared A → Runtime T × Shared A
  unfolding push_event
  transition r state reason sh = if same_state r.state state then (r, sh) else (
    record r { state = state },
    record sh {
      events = push_event sh.events (record {
        service_id = r.spec.service_id;
        from_state = r.state;
        to_state = state;
        reason = reason;
      });
    },
  )

  unfoldable pub supervisor_init : Manifest → A → System T A
  unfolding initial_runtime
  supervisor_init m a = record {
    manifest = m;
    runtimes = map (λ e. (e.0, initial_runtime e.1)) m.services;
    shared = record { events = []; adapter = a; reads = 0; shutdown = false };
  }

  -- `self.clock()`
  unfoldable pub tick : (ℕ → T) → Shared A → T × Shared A
  tick clock sh = (clock sh.reads, record sh { reads = suc sh.reads })
