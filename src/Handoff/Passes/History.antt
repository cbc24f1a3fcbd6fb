-- ===== src/Handoff/Passes/History.antt =====
-- On `_authorize_pass` of local-review-handoff.py over the history of a run.
use mathlib.Core.Path.{subst}
use mathlib.Core.List.{append-nil}
use codex_platform.Base.{
  ℕ, zero, suc, ◌≤◌, ◌≡◌, ap, sym, ◌∙◌, true, false, not, List, [], ◌∷◌, ◌++◌, Option, some,
  text_eq, arith, All, ltb, not-false,
}
use codex_platform.Base.Outcome.{
  ok, reject, or_raise, >>=-eq-ok, >>-eq-ok, reject-eq-ok, ok_inj, or_raise-eq-ok,
}
use codex_platform.Handoff.Comments.{
  no_run, run_ended, other_base, over_cap, pass_done, round_skipped, bad_round, Comment,
}
use codex_platform.Handoff.Runs.{EndMarker, Run, Patterns, run_records, run_end, last_run}
use codex_platform.Handoff.Runs.Chain.{last_run-All}
use codex_platform.Handoff.Runs.Lineage.{Sound, run_records-Lineage}
use codex_platform.Handoff.Passes.{
  Mark, PassArgs, has_ended, has_mark, highest_round, marks_after, authorize_pass, pass_command,
}
use codex_platform.Handoff.Passes.Rounds.{
  Rounds, Once, has_round, Rounds-snoc, marks_after-append, tier_cap-le,
}

-- What a command that lets a pass through has checked.
pub record Authorized (patterns : Patterns) (args : PassArgs) (rows : List Comment) (run : Run)
    : Type 0 where
  pub records : List Run
  pub recorded : run_records patterns rows ≡ ok records
  pub current : last_run records ≡ some run
  pub ended : Option EndMarker
  pub end_read : run_end patterns rows run.run_id ≡ ok ended
  pub open_still : has_ended ended ≡ false
  pub same_base : text_eq run.base args.base ≡ true
  pub positive : 1 ≤ args.round
  pub in_cap : args.round ≤ run.max_rounds
  pub in_four : args.round ≤ 4
  pub fresh : has_mark (args.engine, args.round) (marks_after patterns run.comment_id rows) ≡ false
  pub next : args.round ≤ suc (highest_round (marks_after patterns run.comment_id rows))

ltb-false : (a b : ℕ) → ltb a b ≡ false → b ≤ a
ltb-false a b h = ground arith

pub pass_command-Authorized :
    (patterns : Patterns) (args : PassArgs) (rows : List Comment) (run : Run)
    → pass_command patterns args rows ≡ ok run
    → Authorized patterns args rows run
unfolding pass_command authorize_pass
pass_command-Authorized patterns args rows run h =
    let (positive, h0) = >>-eq-ok (reject (ltb args.round 1) bad_round) _ h in
    let (records, recorded, h1) = >>=-eq-ok (run_records patterns rows) _ h0 in
    let (found, current, h2) = >>=-eq-ok (or_raise no_run (last_run records)) _ h1 in
    let (ended, end_read, h3) = >>=-eq-ok (run_end patterns rows found.run_id) _ h2 in
    let (open_still, h4) = >>-eq-ok (reject (has_ended ended) run_ended) _ h3 in
    let (same_base, h5) = >>-eq-ok (reject (not (text_eq found.base args.base)) other_base) _ h4 in
    let (in_cap, h6) = >>-eq-ok (reject (ltb found.max_rounds args.round) over_cap) _ h5 in
    let marks = marks_after patterns found.comment_id rows in
    let (fresh, h7) = >>-eq-ok (reject (has_mark (args.engine, args.round) marks) pass_done) _ h6 in
    let (next, h8) =
      >>-eq-ok (reject (ltb (suc (highest_round marks)) args.round) round_skipped) _ h7 in
    let current_run = or_raise-eq-ok no_run (last_run records) current in
    let sound =
      last_run-All (Sound patterns) records found current_run
        (run_records-Lineage patterns rows records recorded).sound in
    let low = ltb-false found.max_rounds args.round (reject-eq-ok _ over_cap in_cap) in
    let least = tier_cap-le found.tier in
    let capped = sound.capped in
    subst (Authorized patterns args rows) (ok_inj h8) (record {
      records = records;
      recorded = recorded;
      current = current_run;
      ended = ended;
      end_read = end_read;
      open_still = reject-eq-ok _ run_ended open_still;
      same_base = not-false _ (reject-eq-ok _ other_base same_base);
      positive = ltb-false args.round 1 (reject-eq-ok _ bad_round positive);
      in_cap = low;
      in_four = omega (arith, low, least, capped);
      fresh = reject-eq-ok _ pass_done fresh;
      next = ltb-false (suc (highest_round marks)) args.round (reject-eq-ok _ round_skipped next);
    })

-- The comments while a run goes on: no pass yet; a comment that records no pass; a comment that
-- records one pass, authorized by the comments before it.
pub data Logged (patterns : Patterns) (run : Run) : List Comment → Type 0 where
  begun :
      (rows : List Comment)
      → marks_after patterns run.comment_id rows ≡ []
      → Logged patterns run rows
  remarked :
      {rows : List Comment} (row : Comment)
      → Logged patterns run rows
      → marks_after patterns run.comment_id (row ∷ []) ≡ []
      → Logged patterns run (rows ++ row ∷ [])
  passed :
      {rows : List Comment} (row : Comment) (args : PassArgs)
      → Logged patterns run rows
      → pass_command patterns args rows ≡ ok run
      → marks_after patterns run.comment_id (row ∷ []) ≡ (args.engine, args.round) ∷ []
      → Logged patterns run (rows ++ row ∷ [])

no-Rounds : (cap : ℕ) (marks : List Mark) → marks ≡ [] → Rounds cap marks
unfolding highest_round
no-Rounds cap marks h = subst (Rounds cap) (sym h) (record {
  within = tt;
  once = tt;
  gapless = λ k positive low. absurd (omega (arith, positive, low));
})

Logged-Rounds :
    (patterns : Patterns) (run : Run) (rows : List Comment)
    → Logged patterns run rows
    → Rounds run.max_rounds (marks_after patterns run.comment_id rows)
Logged-Rounds patterns run rows (begun _ none_yet) =
    no-Rounds run.max_rounds (marks_after patterns run.comment_id rows) none_yet
Logged-Rounds patterns run _ (remarked {rows} row before no_mark) =
    subst (Rounds run.max_rounds)
      (sym (
        marks_after-append patterns run.comment_id rows (row ∷ [])
        ∙ ap (λ l. marks_after patterns run.comment_id rows ++ l) no_mark
        ∙ append-nil _))
      (Logged-Rounds patterns run rows before)
Logged-Rounds patterns run _ (passed {rows} row args before allowed marked) =
    let auth = pass_command-Authorized patterns args rows run allowed in
    subst (Rounds run.max_rounds)
      (sym (
        marks_after-append patterns run.comment_id rows (row ∷ [])
        ∙ ap (λ l. marks_after patterns run.comment_id rows ++ l) marked))
      (Rounds-snoc run.max_rounds (marks_after patterns run.comment_id rows)
        (args.engine, args.round) (Logged-Rounds patterns run rows before)
        (auth.positive, auth.in_cap, auth.in_four) auth.fresh auth.next)

-- Every round from 1 up to this one has a pass.
abbrev pub Reaches : ℕ → List Mark → Type 0
Reaches zero marks = Unit
Reaches (suc n) marks = (has_round (suc n) marks ≡ true) × Reaches n marks

-- The passes of a run: rounds from 1 to the cap, which is at most 4, no pass twice, and no round
-- left out below the highest.
pub record InOrder (cap : ℕ) (marks : List Mark) : Type 0 where
  pub within : All (λ (m : Mark). (1 ≤ m.1) × (m.1 ≤ cap) × (m.1 ≤ 4)) marks
  pub once : Once marks
  pub gapless : Reaches (highest_round marks) marks

Reaches-up_to :
    (marks : List Mark) (n : ℕ)
    → ((k : ℕ) → 1 ≤ k → k ≤ n → has_round k marks ≡ true)
    → Reaches n marks
Reaches-up_to marks zero h = tt
Reaches-up_to marks (suc n) h = (
  h (suc n) (omega arith) (omega arith),
  Reaches-up_to marks n (λ k positive low. h k positive (omega (arith, low))),
)

-- Take the comments of a run in which each pass was authorized before its comment was added.
-- The rounds of its passes lie between 1 and the run's cap, which are at most 4, no engine
-- makes the pass of a round twice, and each round up to the highest has a pass.
pub Logged-InOrder :
    (patterns : Patterns) (run : Run) (rows : List Comment)
    → Logged patterns run rows
    → InOrder run.max_rounds (marks_after patterns run.comment_id rows)
Logged-InOrder patterns run rows logged =
    let rounds = Logged-Rounds patterns run rows logged in
    record {
      within = rounds.within;
      once = rounds.once;
      gapless =
          Reaches-up_to (marks_after patterns run.comment_id rows)
            (highest_round (marks_after patterns run.comment_id rows)) rounds.gapless;
    }
