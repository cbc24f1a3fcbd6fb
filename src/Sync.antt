-- ===== src/Sync.antt =====
-- scripts/sync-engine.py: copies files of an upstream repository into a consumer repository.
-- `Glob` has the patterns, `Sensitive` the guarded destinations, `Paths` the lexical paths, `Render`
-- the placeholders, `Fields` the checks of single manifest and config fields, `Host` the file system
-- that the engine is given, and `Engine` the run.
pub mod Glob
pub mod Sensitive
pub mod Paths
pub mod Render
pub mod Host
pub mod Fields
pub mod Engine
mod Samples
