-- ===== src/Browser/Policy.antt =====
-- policy.py: the gate in front of a future executor, and what it guarantees.
pub mod Tables
pub mod Preflight
pub mod Confirm
pub mod Observe
pub mod Evaluate
pub mod Authorize
pub mod Permitted
pub mod Confirmed
pub mod Authorised
pub mod Remote
pub mod Once
pub mod Settled
pub mod Guarantees
