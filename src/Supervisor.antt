-- ===== src/Supervisor.antt =====
-- addons/service_supervisor: the allowlist of local services, its dependency order, and the state
-- machine that wakes, leases and stops them.
pub mod Spec
pub mod Dag
pub mod Runtime
pub mod Machine
pub mod Reaper
pub mod Threads
pub mod Synthetic
pub mod Plans
pub mod Parse
mod Tests
