-- ===== src/Planning.antt =====
-- What happens to planned tasks before they are sorted.
pub mod Numbers
pub mod Normalizer
pub mod Files
pub mod Dependencies
