-- ===== src/AgentLoop/RunState/Fields.antt =====
-- The key sets that `_validate` accepts.
use codex_platform.Base.{String, List, [], ◌∷◌, ◌++◌}

abbrev pub phases : List String
phases = "draft-open" ∷ "reviewing" ∷ "converged" ∷ "finalizing" ∷ "finalized" ∷ []

abbrev pub required : List String
required =
    "version" ∷ "runId" ∷ "repo" ∷ "issue" ∷ "issueTitleSha256" ∷ "issueBodySha256" ∷ "baseBranch"
    ∷ "branch" ∷ "worktree" ∷ "logDir" ∷ "prNumber" ∷ "prUrl" ∷ "baseSha" ∷ "headSha" ∷ "phase"
    ∷ "round" ∷ "reviewEngine" ∷ "codexResultSha256" ∷ "claudeResultSha256" ∷ []

abbrev pub legacy_extended : List String
legacy_extended = required ++ "gitConfigSha256" ∷ []

abbrev pub extended : List String
extended = legacy_extended ++ "projectDir" ∷ "projectGitConfigSha256" ∷ []

abbrev pub budget : List String
budget = "reviewDeadlineEpoch" ∷ "reviewMaxRounds" ∷ []
