-- ===== src/AgentLoop/RunState.antt =====
-- The run state of agent-loop-state.py: `_validate` and the commands `create`, `update` and `show`.
-- `_validate` is one function in the source; here each of its paragraphs is a definition.
mod Fields
pub mod Validate
pub mod Commands
