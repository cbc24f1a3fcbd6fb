-- ===== src/Handoff/Samples.antt =====
-- A local review run of two comments, as local-review-handoff.py reads it.
use codex_platform.Base.{
  ◌≡◌, refl, ◌⊎◌, true, false, List, [], ◌∷◌, ◌++◌, none, some, Text, codes, text_eq, if◌then◌else◌,
}
use codex_platform.Base.Outcome.{ok}
use codex_platform.Handoff.Comments.{Comment, comments_run}
use codex_platform.Handoff.Runs.{lean, RunMatch, Run, Patterns, run_records, runs_run}
use codex_platform.Handoff.Runs.Lineage.{Lineage, run_records-Lineage}
use codex_platform.Handoff.Passes.{PassArgs, marks_after, pass_command, passes_run}
use codex_platform.Handoff.Post.{Hub, found, post_issue_comment, post_run}
use codex_platform.Handoff.Post.Posted.{posted_once}
use codex_platform.Handoff.Start.{StartArgs}
use codex_platform.Handoff.Start.Marked.{marked_text, marked_run}
use codex_platform.Handoff.Passes.History.{Logged, begun, passed, InOrder, Logged-InOrder}

abbrev run_body : Text
run_body = codes "<!-- local-review-run:v1 ... -->\ngo"

abbrev found_run : RunMatch
found_run = record {
  start = 0;
  rest = codes "\ngo";
  run_id = codes "id";
  tier = lean;
  max_rounds = 2;
  base = codes "b";
  start_head = codes "h";
  supersedes = none;
  content_sha = codes "id";
}

abbrev patterns : Patterns
patterns = record {
  run_matches = λ body. if text_eq body run_body then found_run ∷ [] else [];
  end_marker = λ body. none;
  pass_marks = λ body. if text_eq body (codes "p") then (codes "codex", 1) ∷ [] else [];
  run_digest = λ tier cap base head supersedes content. codes "id";
}

abbrev run_row : Comment
run_row = record { id = some 7; body = some run_body }

abbrev pass_row : Comment
pass_row = record { id = some 8; body = some (codes "p") }

abbrev run : Run
run = record {
  base = codes "b";
  body = run_body;
  comment_id = 7;
  content = codes "go";
  max_rounds = 2;
  run_id = codes "id";
  start_head = codes "h";
  supersedes = none;
  tier = lean;
}

abbrev args : PassArgs
args = record { engine = codes "codex"; round = 1; base = codes "b" }

one_run : run_records patterns (run_row ∷ []) ≡ ok (run ∷ [])
unfolding runs_run
one_run = refl

pass_allowed : pass_command patterns args (run_row ∷ []) ≡ ok run
unfolding passes_run runs_run
pass_allowed = refl

run_records-Lineage_example : Lineage patterns (run ∷ [])
run_records-Lineage_example = run_records-Lineage patterns (run_row ∷ []) (run ∷ []) one_run

no_pass_yet : marks_after patterns 7 (run_row ∷ []) ≡ []
unfolding passes_run
no_pass_yet = refl

one_pass : marks_after patterns 7 (pass_row ∷ []) ≡ (codes "codex", 1) ∷ []
unfolding passes_run
one_pass = refl

logged : Logged patterns run (run_row ∷ pass_row ∷ [])
logged = passed pass_row args (begun (run_row ∷ []) no_pass_yet) pass_allowed one_pass

Logged-InOrder_example : InOrder 2 (marks_after patterns 7 (run_row ∷ pass_row ∷ []))
Logged-InOrder_example = Logged-InOrder patterns run (run_row ∷ pass_row ∷ []) logged

-- The marker of a second run over the first.
abbrev again : RunMatch
again = record found_run { rest = codes "\nagain"; start_head = codes "h2"; supersedes = some 7 }

-- A restart over a run that has ended.
abbrev ended_patterns : Patterns
ended_patterns = record patterns {
  run_matches = λ body.
      if text_eq body run_body
      then found_run ∷ []
      else if text_eq body (marked_text again ++ again.rest)
      then again ∷ []
      else [];
  end_marker = λ body.
      if text_eq body (codes "e")
      then some (record { run_id = codes "id"; outcome = codes "converged"; head = codes "h" })
      else none;
}

abbrev ended_rows : List Comment
ended_rows = run_row ∷ record { id = some 9; body = some (codes "e") } ∷ []

abbrev start_args : StartArgs
start_args = record {
  tier = lean;
  base = codes "b";
  head = codes "h2";
  restart = true;
  authorization = some (record { is_regular = true; text = some (codes "again") });
}

-- A service that takes every comment; it shows the last one.
abbrev hub : Hub
hub = record {
  State = List Comment;
  comments = λ rows. ok rows;
  head = λ rows. ok (codes "h");
  shown = λ rows id. ok (some (codes "key body"));
  post = λ body rows. (record { id = some 5; body = some body } ∷ rows, ok 5);
}

comment_posted : (post_issue_comment hub (codes "key") (codes "key body") []).1 ≡ ok (5, false)
unfolding post_run comments_run
comment_posted = refl

posted_once_example :
    (found hub
        (codes "key")
        (codes "key body")
        (post_issue_comment hub (codes "key") (codes "key body") []).0
      ≡ ok (some 5))
    × (((post_issue_comment hub (codes "key") (codes "key body") []).0 ≡ [])
        ⊎ ((found hub (codes "key") (codes "key body") [] ≡ ok none)
            × ((post_issue_comment hub (codes "key") (codes "key body") []).0
                ≡ (hub.post (codes "key body") []).0)))
posted_once_example = posted_once hub (codes "key") (codes "key body") [] 5 false comment_posted

abbrev started : Run
started = marked_run again (codes "again") 10

abbrev ended_hub : Hub
ended_hub = record hub { comments = λ rows. ok ended_rows }
