-- ===== src/Queue.antt =====
-- The scripts that list issues for the agents: .codex/skills/issues/scripts/ready.py (`Ready`) and
-- .codex/skills/backlog-refinement/scripts/candidates.py (`Candidates`).
pub mod Ready
pub mod Addressed
pub mod Candidates
mod Samples
