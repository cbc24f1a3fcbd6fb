-- ===== src/Queue/Samples.antt =====
-- The theorems of the queue scripts at concrete issues.
use codex_platform.Base.{Bool, not, ◌&&◌, ◌==◌, any, split_on, join_with}
use codex_platform.Queue.Ready.{elem_num}
use codex_platform.Queue.Addressed.{PullRequest, is_fence, addressed_numbers, addressed_run}
use codex_platform.Queue.Addressed.Linked.{addressed_numbers_lem, closes_number}
use codex_platform.Queue.Candidates.{candidates_run, epic}
use codex_platform.Queue.Candidates.Buckets.{
  Listed, lists, any_issue, is_trusted, Ordered, bucket, ready_bucket, buckets_run,
}
use codex_platform.Base.{
  ℕ, ◌≡◌, refl, true, false, List, [], ◌∷◌, none, some, Text, codes, All, ◌≤◌, length, arith,
}
use codex_platform.Base.Value.{pos}
use codex_platform.Queue.Ready.{Issue, is_ready, kept, ready_list, ready_run}
use codex_platform.Queue.Ready.Order.{IsReady, Sorted, ready_list_lem}
use codex_platform.Queue.Ready.Complete.{Holds, here, ready_list-Holds}
use codex_platform.Queue.Candidates.{Candidate, ready}

-- Issue 5 is blocked by issue 3.
abbrev blockers : Text → List ℕ
blockers [] = []
blockers (c ∷ s) = 3 ∷ []

abbrev urgent : Issue
urgent = record { number = 8; labels = "priority: high" ∷ []; assigned = false; body = none }

abbrev plain : Issue
plain = record { number = 3; labels = []; assigned = false; body = none }

abbrev blocked : Issue
blocked = record {
  number = 5;
  labels = "priority: critical" ∷ [];
  assigned = false;
  body = some (codes "x");
}

abbrev issues : List Issue
issues = plain ∷ blocked ∷ urgent ∷ []

urgent_first : ready_list blockers false (3 ∷ 5 ∷ 8 ∷ []) [] (pos 20) issues ≡ urgent ∷ plain ∷ []
unfolding ready_run
urgent_first = refl

ready_list_lem_example :
    All
      (IsReady blockers (3 ∷ 5 ∷ 8 ∷ []) [])
      (ready_list blockers false (3 ∷ 5 ∷ 8 ∷ []) [] (pos 20) issues)
    × Sorted (ready_list blockers false (3 ∷ 5 ∷ 8 ∷ []) [] (pos 20) issues)
ready_list_lem_example = ready_list_lem blockers false (3 ∷ 5 ∷ 8 ∷ []) [] (pos 20) issues

plain_ready : is_ready blockers false (3 ∷ 5 ∷ 8 ∷ []) [] plain ≡ true
unfolding ready_run
plain_ready = refl

two_kept : kept blockers false (3 ∷ 5 ∷ 8 ∷ []) [] issues ≡ plain ∷ urgent ∷ []
unfolding ready_run
two_kept = refl

few_kept : length (kept blockers false (3 ∷ 5 ∷ 8 ∷ []) [] issues) ≤ 20
few_kept = rw two_kept (omega arith)

ready_list-Holds_example :
    Holds plain (ready_list blockers false (3 ∷ 5 ∷ 8 ∷ []) [] (pos 20) issues)
ready_list-Holds_example =
    ready_list-Holds blockers false (3 ∷ 5 ∷ 8 ∷ []) [] 20 issues plain (here refl) plain_ready
      few_kept

abbrev assessed : Candidate
assessed = record { labels = "dev: agent" ∷ "agent: refined" ∷ []; title = codes "Fix it" }

abbrev is_blank_char : ℕ → Bool
is_blank_char c = c == b' '

abbrev by_line : Text → List Text
by_line body = split_on b'\n' body

-- Finds issue 4 in every body that is not empty.
abbrev finds_four : Text → List ℕ
finds_four [] = []
finds_four (c ∷ s) = 4 ∷ []

fence_opens : is_fence (codes "```sh") ≡ true
unfolding addressed_run
fence_opens = refl

fence_inside : any is_fence (codes "fixes #4" ∷ []) ≡ false
unfolding addressed_run
fence_inside = refl

fence_closes : is_fence (codes "```") ≡ true
unfolding addressed_run
fence_closes = refl

abbrev linked : PullRequest
linked = record {
  number = 20;
  refs = record { owner = some "owner"; name = some "name"; number = 8 } ∷ [];
  body = codes "fixes it";
}

abbrev unlinked : PullRequest
unlinked = record { number = 21; refs = []; body = codes "fixes #4" }

four_addressed :
    addressed_numbers is_blank_char by_line finds_four
      (codes "owner/name")
      []
      (linked ∷ unlinked ∷ [])
    ≡ 8 ∷ 4 ∷ []
unfolding addressed_run join_with split_on
four_addressed = refl

addressed_numbers_lem_example :
    elem_num 4 (
      addressed_numbers is_blank_char by_line finds_four
        (codes "owner/name")
        []
        (linked ∷ unlinked ∷ []))
    ≡ any
        (λ pr.
          not (elem_num pr.number [])
          && closes_number is_blank_char by_line finds_four (codes "owner/name") 4 pr)
        (linked ∷ unlinked ∷ [])
addressed_numbers_lem_example =
    addressed_numbers_lem is_blank_char by_line finds_four (codes "owner/name") []
      (linked ∷ unlinked ∷ []) 4

abbrev open_issues : List Listed
open_issues =
    record { number = 9; issue = assessed }
    ∷ record { number = 2; issue = record { labels = []; title = codes "Epic: all of it" } }
    ∷ []

ready_bucket_example :
    (lists 9 any_issue (bucket [] ready open_issues) ≡ lists 9 (is_trusted []) open_issues)
    × Ordered (bucket [] ready open_issues)
ready_bucket_example = ready_bucket [] open_issues 9

epic_seen : length (bucket [] epic open_issues) ≡ 1
unfolding buckets_run candidates_run
epic_seen = refl
