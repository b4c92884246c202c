-- ===== src/Engine/Handling.antt =====
-- `handle_event`, branch by branch: a retry, a second event of a source, an event that leaves its
-- window waiting, and one that completes it.
pub mod Retry
pub mod Duplicate
pub mod Opening
pub mod Gather
pub mod Completion
pub mod Outcome
pub mod Kept
pub mod Fits
