-- ===== src/Examples.antt =====
-- The theorems at concrete inputs: a small plan, its state, and a session with two revisions.
mod Plans
mod Selections
mod Sessions
mod Actions
mod Guards
mod Routes
mod Steering
mod Stories
mod Planning
mod Tokens
mod Edits
mod Stalls
