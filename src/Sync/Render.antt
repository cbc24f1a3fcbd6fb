-- ===== src/Sync/Render.antt =====
-- The rendering of templates in sync-engine.py: `PLACEHOLDER_RE`, `drop_empty_placeholder_lines` and
-- `substitute`, over the code points of the text.
pub mod Tokens
pub mod Collapse
pub mod Substitute
