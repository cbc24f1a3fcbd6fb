-- ===== src/Handoff/Passes.antt =====
-- `_authorize_pass` of local-review-handoff.py: whether an engine may make a pass of the current run.
pub mod Rounds
pub mod History
use codex_platform.Base.{
  ℕ, suc, Bool, true, false, not, ◌&&◌, ◌||◌, List, [], ◌∷◌, ◌++◌, Option, none, some, Text, codes,
  text_eq, leb, ltb, ◌==◌, if◌then◌else◌,
}
use codex_platform.Base.Outcome.{Outcome, ok, err, reject, or_raise, ◌>>=◌, ◌>>◌}
use codex_platform.Handoff.Comments.{
  HandoffError, no_run, run_ended, other_base, over_cap, pass_done, round_skipped, bad_round,
  Comment,
}
use codex_platform.Handoff.Runs.{Run, EndMarker, Patterns, run_records, run_end, last_run}

-- An engine and a round.
abbrev pub Mark : Type 0
Mark = Text × ℕ

pub record PassArgs : Type 0 where
  pub engine : Text
  pub round : ℕ
  pub base : Text

-- Antigravity's passes count as Gemini's.
pub canonical_marks : List Mark → List Mark
canonical_marks [] = []
canonical_marks ((engine, round) ∷ marks) =
    (if text_eq engine (codes "antigravity") then codes "gemini" else engine, round)
    ∷ canonical_marks marks

pub has_ended : Option EndMarker → Bool
has_ended none = false
has_ended (some e) = true

abbrev pub same_mark : Mark → Mark → Bool
same_mark m n = text_eq m.0 n.0 && m.1 == n.1

pub has_mark : Mark → List Mark → Bool
has_mark m [] = false
has_mark m (n ∷ ns) = same_mark m n || has_mark m ns

abbrev pub larger : ℕ → ℕ → ℕ
larger a b = if leb a b then b else a

pub highest_round : List Mark → ℕ
highest_round [] = 0
highest_round (m ∷ ms) = larger m.1 (highest_round ms)

module _ (patterns : Patterns) where
  open patterns use {pass_marks}

  -- The passes that a comment behind the start of the run records.
  pub row_marks : ℕ → Option ℕ → Option Text → List Mark
  row_marks start (some id) (some body) =
      if leb id start then [] else canonical_marks (pass_marks body)
  row_marks start _ _ = []

  pub marks_after : ℕ → List Comment → List Mark
  marks_after start [] = []
  marks_after start (row ∷ rows) = row_marks start row.id row.body ++ marks_after start rows

  pub authorize_pass : PassArgs → List Comment → Outcome HandoffError Run
  authorize_pass args rows = do
    records ← run_records patterns rows
    run ← or_raise no_run (last_run records)
    ended ← run_end patterns rows run.run_id
    reject (has_ended ended) run_ended
    reject (not (text_eq run.base args.base)) other_base
    reject (ltb run.max_rounds args.round) over_cap
    let marks = marks_after run.comment_id rows
    reject (has_mark (args.engine, args.round) marks) pass_done
    reject (ltb (suc (highest_round marks)) args.round) round_skipped
    ok run

  -- `main` refuses a round that is not positive.
  pub pass_command : PassArgs → List Comment → Outcome HandoffError Run
  pass_command args rows = reject (ltb args.round 1) bad_round >> authorize_pass args rows

-- Names what a run of `authorize_pass` opens.
unfoldable pub passes_run : Unit {0}
unfolding canonical_marks has_ended has_mark highest_round row_marks marks_after authorize_pass
    pass_command
passes_run = tt
