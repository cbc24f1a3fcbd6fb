-- ===== src/Lint.antt =====
-- scripts/lint-collapse-sites.py: whether the keys that a manifest opts into collapsing stand where
-- the sync engine may delete their lines. `Patterns` has the regular expressions, `Scan` the lines of
-- literal content, `Check` one source's violations, and `Main` the run over a manifest.
pub mod Patterns
pub mod Scan
pub mod Check
pub mod Main
mod Samples
