-- ===== src/Browser.antt =====
-- addons/browser_automation_policy: typed proposals, the policy gate and its ledger.
pub mod Kinds
pub mod Ids
pub mod Json
pub mod Binding
pub mod Targets
pub mod Grant
pub mod Observation
pub mod Proposal
pub mod Ledger
pub mod Adapters
pub mod Handoff
pub mod Policy
mod Tests
