-- ===== src/Capacity.antt =====
-- How much work runs at once: the scheduler of lanes and the capacity policy of
-- addons/orchestrator_session.
pub mod Scheduler
pub mod Adaptive
mod Tests
