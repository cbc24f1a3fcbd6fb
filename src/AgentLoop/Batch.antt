-- ===== src/AgentLoop/Batch.antt =====
-- The batch state of agent-loop-state.py: `_validate_batch` and the commands `batch-create`,
-- `batch-update` and `batch-show`. The file lock that serialises the commands is not modelled: a
-- command is one step on the disk.
pub mod Validate
pub mod Commands
mod Samples
