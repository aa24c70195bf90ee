-- ===== src/Stalls.antt =====
-- The fallback agent that watches for tasks that make no progress.
pub mod Detect
pub mod Assess
pub mod Throttle
pub mod Commands
pub mod Triage
