-- ===== src/Dag.antt =====
-- The order of planned tasks: `ResolveAndSortTasks` of pkg/services/dag.go. The children prove
-- what a successful sort gives, that the recursion ends, and when a cycle is reported.
pub mod Graph
pub mod Walk
mod Search
mod Fuel
mod Acyclic
mod Known
pub mod Edges
mod Links
pub mod Built
pub mod Order
pub mod Total
pub mod Success
pub mod Resolved
