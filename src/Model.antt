-- ===== src/Model.antt =====
-- matcher/src/model.rs: the events, the reconciliation windows, and the verdicts on them.
pub mod Source
pub mod Event
pub mod Partial
pub mod Incident
pub mod Invariants
pub mod Details
pub mod Pubsub
