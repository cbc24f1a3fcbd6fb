-- ===== src/Handoff/Start.antt =====
-- `_start_run` and `_finish_run` of local-review-handoff.py.
pub mod Marked
pub mod Grown
use codex_platform.Base.{
  ℕ, zero, suc, ◌+◌, ◌/◌, ◌%◌, Bool, true, false, not, ◌&&◌, ◌||◌, List, [], ◌∷◌, ◌++◌, Option,
  none, some, Text, codes, text_eq, ◌==◌, if◌then◌else◌,
}
use codex_platform.Base.Outcome.{Outcome, ok, err, reject, or_raise, ◌>>=◌, ◌>>◌}
use codex_platform.Commit.Message.{strip}
use codex_platform.Handoff.Comments.{
  HandoffError, empty_authorization, restart_needed, end_needed, ended_differently, no_run, Comment,
  ContextFile, read_context,
}
use codex_platform.Handoff.Runs.{
  Tier, lean, deep, tier_cap, Run, EndMarker, Patterns, run_records, run_end, last_run,
}
use codex_platform.Handoff.Passes.{has_ended}
use codex_platform.Handoff.Post.{Hub, verify_head, post_issue_comment}

pub record StartArgs : Type 0 where
  pub tier : Tier
  pub base : Text
  pub head : Text
  pub restart : Bool
  pub authorization : Option ContextFile

pub record FinishArgs : Type 0 where
  pub outcome : Text
  pub head : Text

abbrev pub tier_name : Tier → Text
tier_name lean = codes "lean"
tier_name deep = codes "deep"

abbrev same_tier : Tier → Tier → Bool
same_tier s t = tier_cap s == tier_cap t

-- `str(n)`: a number has no more digits than it has units and one.
pub digits : ℕ → ℕ → Text → Text
digits zero n acc = acc
digits (suc fuel) n acc =
    let rest = digits fuel (n / 10) ((b'0' + n % 10) ∷ acc) in
    if n / 10 == 0 then (b'0' + n % 10) ∷ acc else rest

pub decimal : ℕ → Text
decimal n = digits (suc n) n []

pub parent_text : Option ℕ → Text
parent_text none = codes "none"
parent_text (some id) = decimal id

-- What a start comes to: an open run that is the same, or a new one over a comment.
pub data Decision : Type 0 where
  replay : Run → Decision
  begin : Option ℕ → Decision

pub is_same_run : StartArgs → Text → Run → Bool
is_same_run args content run =
    not args.restart
    && same_tier run.tier args.tier
    && text_eq run.base args.base
    && text_eq run.start_head args.head
    && text_eq run.content content

pub over_run : StartArgs → Text → Run → Option EndMarker → Outcome HandoffError Decision
over_run args content run ended = do
  let replayed = not (has_ended ended) && is_same_run args content run
  reject (not replayed && not args.restart) restart_needed
  reject (not replayed && not (has_ended ended)) end_needed
  if replayed then ok (replay run) else ok (begin (some run.comment_id))

module _ (patterns : Patterns) where
  open patterns use {run_digest}

  pub over_last : StartArgs → Text → List Comment → Option Run → Outcome HandoffError Decision
  over_last args content rows none = ok (begin none)
  over_last args content rows (some run) =
      run_end patterns rows run.run_id >>= (λ ended. over_run args content run ended)

  -- The run that a start writes, before it has a comment.
  pub new_id : StartArgs → Text → Option ℕ → Text
  new_id args content parent =
      run_digest args.tier (tier_cap args.tier) args.base args.head parent content

  pub run_marker : StartArgs → Text → Option ℕ → Text
  run_marker args content parent =
      let id = new_id args content parent in
      codes "<!-- local-review-run:v1 id="
      ++ id
      ++ codes " tier="
      ++ tier_name args.tier
      ++ codes " max-rounds="
      ++ decimal (tier_cap args.tier)
      ++ codes " base="
      ++ args.base
      ++ codes " start-head="
      ++ args.head
      ++ codes " supersedes="
      ++ parent_text parent
      ++ codes " content-sha256="
      ++ id
      ++ codes " -->"

  pub end_text : FinishArgs → Run → Text
  end_text args run =
      codes "<!-- local-review-run-end:v1 id="
      ++ run.run_id
      ++ codes " outcome="
      ++ args.outcome
      ++ codes " head="
      ++ args.head
      ++ codes " -->"

  pub decide : StartArgs → List Comment → Outcome HandoffError (Text × Decision)
  decide args rows = do
    records ← run_records patterns rows
    context ← read_context args.authorization
    let content = strip context
    reject (text_eq content []) empty_authorization
    decision ← over_last args content rows (last_run records)
    ok (content, decision)

  module _ (hub : Hub) where
    open hub use {State, comments}

    -- A post between two checks of the head.
    pub checked_post : Text → Text → Text → State → State × Outcome HandoffError (ℕ × Bool)
    checked_post head marker body state = elim (verify_head hub head state) [
      | err e ↦ (state, err e)
      | ok _ ↦
          let (after, posted) = post_issue_comment hub marker body state in
          (after, posted >>= (λ id. verify_head hub head after >> ok id))
    ]

    pub carry_out : StartArgs → State → Text × Decision → State × Outcome HandoffError (ℕ × Bool)
    carry_out args state (content, replay run) =
        (state, verify_head hub args.head state >> ok (run.comment_id, true))
    carry_out args state (content, begin parent) =
        let marker = run_marker args content parent in
        checked_post args.head marker (marker ++ b'\n' ∷ content) state

    pub start_run : StartArgs → State → State × Outcome HandoffError (ℕ × Bool)
    start_run args state = elim (comments state >>= (λ rows. decide args rows)) [
      | err e ↦ (state, err e)
      | ok decided ↦ carry_out args state decided
    ]

    -- The current run and its end, if it has one.
    pub current : List Comment → Outcome HandoffError (Run × Option EndMarker)
    current rows = do
      records ← run_records patterns rows
      run ← or_raise no_run (last_run records)
      ended ← run_end patterns rows run.run_id
      ok (run, ended)

    pub finish : FinishArgs → State → Run × Option EndMarker → State × Outcome HandoffError Bool
    finish args state (run, some e) = (
      state,
      reject (not (text_eq e.head args.head) || not (text_eq e.outcome args.outcome))
            ended_differently
          >> (verify_head hub args.head state >> ok true),
    )
    finish args state (run, none) =
        let (after, posted) =
          checked_post args.head (end_text args run) (end_text args run) state in
        (after, posted >>= (λ result. ok result.1))

    pub finish_run : FinishArgs → State → State × Outcome HandoffError Bool
    finish_run args state = elim (comments state >>= (λ rows. current rows)) [
      | err e ↦ (state, err e)
      | ok found ↦ finish args state found
    ]

-- Names what a start opens.
unfoldable pub start_names : Unit {0}
unfolding digits decimal parent_text is_same_run over_run over_last new_id run_marker end_text
    decide checked_post carry_out start_run current finish finish_run
start_names = tt
