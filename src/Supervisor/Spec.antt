-- ===== src/Supervisor/Spec.antt =====
-- The exceptions and the records of supervisor.py.
use project_firestarter.Prelude.{ℕ, String, Bool, List, Dict}

-- `ManifestError`, `RefusalError`, `WakeError`, the `KeyError` of a dictionary, and any other
-- exception that an adapter raises.
pub data Raised : Type 0 where
  manifest_error refusal_error wake_error key_error adapter_error : String → Raised

pub data ServiceState : Type 0 where
  stopped starting ready draining failed : ServiceState

pub record HealthSpec : Type 0 where
  pub path : String
  pub interval_ms : ℕ

-- The times are milliseconds that `_bounded_int` has found to be non-negative.
pub record ServiceSpec : Type 0 where
  pub service_id : String
  pub adapter : String
  pub upstream : String
  pub dependencies : List String
  pub health : HealthSpec
  pub wake_timeout_ms : ℕ
  pub idle_timeout_ms : ℕ
  pub drain_grace_ms : ℕ
  pub never_stop : Bool
  pub retain : Bool

-- `self.services`, by `service_id`.
abbrev pub Services : Type 0
Services = Dict String ServiceSpec

pub record Manifest : Type 0 where
  pub services : Services
  pub topological_order : List String
