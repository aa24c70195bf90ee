-- ===== src/Story.antt =====
-- The stories: their identifiers and the scheduler that runs them.
pub mod Ids
pub mod Parse
pub mod Sort
pub mod Graph
pub mod Execute
