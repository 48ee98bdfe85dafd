-- ===== src/Registry.antt =====
-- addons/work_registry: the noticeboard on which agents of one machine declare what they touch.
pub mod Commands
pub mod Claims
pub mod Holding
mod Tests
