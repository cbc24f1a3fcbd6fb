-- ===== src/Handoff/Start/Marked.antt =====
-- On `_start_run` of local-review-handoff.py: the comment that it posts, as `_run_records` reads it.
use codex_platform.Base.{
  ℕ, ◌≡◌, refl, ap, ◌∙◌, List, [], ◌∷◌, ◌++◌, Option, some, Text, codes, text_eq_refl, ==_iff,
}
use codex_platform.Base.Outcome.{ok, ◌>>=◌}
use codex_platform.Handoff.Comments.{Comment}
use codex_platform.Handoff.Runs.{
  tier_cap, Run, RunMatch, read_run, checked_run, one_match, Patterns, runs_run,
}
use codex_platform.Handoff.Post.{Hub}
use codex_platform.Handoff.Start.{
  StartArgs, begin, new_id, decide, tier_name, decimal, parent_text, run_marker, carry_out,
  checked_post, start_run,
}

-- The text that RUN_V1_RE describes, with these groups.
abbrev pub marked_text : RunMatch → Text
marked_text m =
    codes "<!-- local-review-run:v1 id="
    ++ m.run_id
    ++ codes " tier="
    ++ tier_name m.tier
    ++ codes " max-rounds="
    ++ decimal m.max_rounds
    ++ codes " base="
    ++ m.base
    ++ codes " start-head="
    ++ m.start_head
    ++ codes " supersedes="
    ++ parent_text m.supersedes
    ++ codes " content-sha256="
    ++ m.content_sha
    ++ codes " -->"

-- The expression finds a marker in a text that begins with it, and no other.
abbrev pub Finds : Patterns → RunMatch → Type 0
Finds patterns m = patterns.run_matches (marked_text m ++ m.rest) ≡ m ∷ []

-- The marker of a start: the options, the tier's cap and the digest of these.
abbrev pub start_match : Patterns → StartArgs → Text → Option ℕ → RunMatch
start_match patterns args content parent =
    let id =
      patterns.run_digest args.tier (tier_cap args.tier) args.base args.head parent content in
    record {
      start = 0;
      rest = b'\n' ∷ content;
      run_id = id;
      tier = args.tier;
      max_rounds = tier_cap args.tier;
      base = args.base;
      start_head = args.head;
      supersedes = parent;
      content_sha = id;
    }

-- The run of a marker that a comment begins with.
abbrev pub marked_run : RunMatch → Text → ℕ → Run
marked_run m content id = record {
  base = m.base;
  body = marked_text m ++ m.rest;
  comment_id = id;
  content = content;
  max_rounds = m.max_rounds;
  run_id = m.run_id;
  start_head = m.start_head;
  supersedes = m.supersedes;
  tier = m.tier;
}

checked_run-marked :
    (patterns : Patterns) (args : StartArgs) (content : Text) (parent : Option ℕ) (id : ℕ)
    → let m = start_match patterns args content parent in
      checked_run patterns id (marked_text m ++ m.rest) m ≡ ok (marked_run m content id)
unfolding runs_run
checked_run-marked patterns args content parent id =
    let m = start_match patterns args content parent in
    rw ((==_iff (tier_cap args.tier) (tier_cap args.tier)).1 refl, text_eq_refl m.run_id) refl

-- What a start posts is read back as the run.
pub start-read_back :
    (patterns : Patterns) (args : StartArgs) (content : Text) (parent : Option ℕ) (id : ℕ)
    → Finds patterns (start_match patterns args content parent)
    → let m = start_match patterns args content parent in
      read_run patterns (some id) (some (marked_text m ++ m.rest))
      ≡ ok (some (marked_run m content id))
unfolding runs_run
start-read_back patterns args content parent id finds =
    let m = start_match patterns args content parent in
    ap (λ ms. one_match patterns id (marked_text m ++ m.rest) ms >>= (λ r. ok (some r))) finds
    ∙ ap (λ c. c >>= (λ r. ok (some r))) (checked_run-marked patterns args content parent id)

pub start_run-posts :
    (patterns : Patterns) (hub : Hub) (args : StartArgs) (state : hub.State) (rows : List Comment)
    (content : Text) (parent : Option ℕ)
    → hub.comments state ≡ ok rows
    → decide patterns args rows ≡ ok (content, begin parent)
    → let m = start_match patterns args content parent in
      start_run patterns hub args state
      ≡ checked_post patterns hub args.head (marked_text m) (marked_text m ++ m.rest) state
unfolding start_run carry_out run_marker new_id
start_run-posts patterns hub args state rows content parent shown decided =
    rw (shown, decided, start_run, carry_out, run_marker, new_id) refl
