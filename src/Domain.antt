-- ===== src/Domain.antt =====
-- The domain types: pkg/domain.
pub mod Task
pub mod State
pub mod Session
pub mod Actions
