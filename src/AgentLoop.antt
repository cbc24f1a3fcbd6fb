-- ===== src/AgentLoop.antt =====
-- .codex/skills/agent-loop/scripts/agent-loop-state.py: the private state files of the agent loop.
-- `Failure` has the exceptions and the checks on single values, `Disk` the files and the atomic
-- write, `RunState` the state of one run, and `Batch` the state of a batch of issues.
pub mod Failure
pub mod Disk
pub mod RunState
pub mod Batch
mod Samples
