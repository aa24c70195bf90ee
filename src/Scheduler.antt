-- ===== src/Scheduler.antt =====
-- The task scheduler: `Scheduler` of pkg/services/scheduler.go. `Index` resolves dependency
-- strings, `Blocked` spreads unresolved clarifications, and `Ready` selects tasks.
pub mod Index
pub mod Blocked
pub mod Ready
