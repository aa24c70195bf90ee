-- ===== src/Router.antt =====
-- The choice among model candidates: pkg/infrastructure/llm.
pub mod Latency
pub mod Cooldown
