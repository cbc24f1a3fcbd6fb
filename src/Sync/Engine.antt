-- ===== src/Sync/Engine.antt =====
-- The run of sync-engine.py: `main` and the two passes that it makes before the first change.
pub mod Target
pub mod Settings
pub mod Plan
pub mod Run
pub mod Policy
mod Samples
