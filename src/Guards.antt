-- ===== src/Guards.antt =====
-- The guards of the repair loop: bounded output, circuit breakers and turn budgets of pkg/services.
pub mod Buffer
pub mod Oscillation
pub mod Breaker
pub mod Turns
pub mod Diffs
pub mod Regression
