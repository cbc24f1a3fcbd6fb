-- ===== src/Handoff.antt =====
-- .codex/skills/critique/scripts/local-review-handoff.py: the comments of a pull request that record
-- local review runs. `Comments` reads the comments, `Runs` the runs and their ends, `Passes` decides
-- on a pass, and `Post` writes comments.
pub mod Comments
pub mod Runs
pub mod Passes
pub mod Post
pub mod Start
mod Samples
