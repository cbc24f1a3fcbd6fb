-- ===== src/Handoff/Start/Grown.antt =====
-- On `_start_run` of local-review-handoff.py: the run that it writes, behind those that are there.
use codex_platform.Base.{ℕ, ◌≡◌, true, List, Option, none, some}
use codex_platform.Base.Outcome.{Outcome, ok}
use codex_platform.Handoff.Comments.{Comment}
use codex_platform.Handoff.Runs.{Run, EndMarker, Patterns, run_end}
use codex_platform.Handoff.Runs.Chain.{Chain}
use codex_platform.Handoff.Runs.Lineage.{Lineage}
use codex_platform.Handoff.Passes.{has_ended}
use codex_platform.Handoff.Start.{StartArgs}

-- The comment that a run behind these supersedes.
abbrev pub last_id : Option ℕ → Option Run → Option ℕ
last_id parent none = parent
last_id parent (some r) = some r.comment_id

-- What a start that writes a run has found: no run, or one that has ended, with a restart asked for.
pub record Restarts (patterns : Patterns) (args : StartArgs) (rows : List Comment) (run : Run)
    : Type 0 where
  pub asked : args.restart ≡ true
  pub ended : Option EndMarker
  pub end_read : run_end patterns rows run.run_id ≡ ok ended
  pub over : has_ended ended ≡ true
