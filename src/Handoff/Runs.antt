-- ===== src/Handoff/Runs.antt =====
-- `_run_records` and `_run_end` of local-review-handoff.py. What RUN_V1_RE and RUN_END_V1_RE find in
-- a text, and the digest of a run, are parameters.
pub mod Chain
pub mod Lineage
use codex_platform.Base.{
  ℕ, Bool, true, false, not, ◌&&◌, ◌||◌, List, [], ◌∷◌, Option, none, some, Text, codes, text_eq,
  has_prefix, leb, ◌==◌, if◌then◌else◌,
}
use codex_platform.Base.Outcome.{Outcome, ok, err, reject, or_raise, ◌>>=◌, ◌>>◌}
use codex_platform.Handoff.Comments.{
  HandoffError, malformed_run, cap_disagrees, bad_run_digest, conflicting_run, broken_chain,
  two_ends, Comment,
}

pub data Tier : Type 0 where
  lean deep : Tier

-- `TIER_CAPS`
abbrev pub tier_cap : Tier → ℕ
tier_cap lean = 2
tier_cap deep = 4

-- The groups of a match of RUN_V1_RE, where it starts, and the text behind it.
pub record RunMatch : Type 0 where
  pub start : ℕ
  pub rest : Text
  pub run_id : Text
  pub tier : Tier
  pub max_rounds : ℕ
  pub base : Text
  pub start_head : Text
  pub supersedes : Option ℕ
  pub content_sha : Text

pub record EndMarker : Type 0 where
  pub run_id : Text
  pub outcome : Text
  pub head : Text

pub record Run : Type 0 where
  pub base : Text
  pub body : Text
  pub comment_id : ℕ
  pub content : Text
  pub max_rounds : ℕ
  pub run_id : Text
  pub start_head : Text
  pub supersedes : Option ℕ
  pub tier : Tier

-- `_run_digest`: tier, cap, base, head, the superseded comment and the content.
abbrev pub RunDigest : Type 0
RunDigest = Tier → ℕ → Text → Text → Option ℕ → Text → Text

pub record Patterns : Type 0 where
  pub run_matches : Text → List RunMatch
  pub end_marker : Text → Option EndMarker
  pub pass_marks : Text → List (Text × ℕ)
  pub run_digest : RunDigest

-- The text behind the marker starts with a newline; the content is what follows that.
pub after_newline : Text → Option Text
after_newline [] = none
after_newline (c ∷ s) = if c == b'\n' then some s else none

-- `records.sort` by the id of the comment, which is stable.
pub insert_run : Run → List Run → List Run
insert_run r [] = r ∷ []
insert_run r (q ∷ qs) =
    let rest = insert_run r qs in if leb r.comment_id q.comment_id then r ∷ q ∷ qs else q ∷ rest

pub sort_runs : List Run → List Run
sort_runs [] = []
sort_runs (r ∷ rs) = insert_run r (sort_runs rs)

-- `by_run_id.get(run_id)`
pub with_run_id : Text → List Run → Option Run
with_run_id run_id [] = none
with_run_id run_id (r ∷ rs) =
    let later = with_run_id run_id rs in if text_eq r.run_id run_id then some r else later

abbrev pub Aliases : Type 0
Aliases = List (ℕ × ℕ)

-- The runs without repetitions, and the first comment for each repetition's.
pub drop_repeats : List Run → List Run → Outcome HandoffError (List Run × Aliases)
drop_repeats seen [] = ok ([], [])
drop_repeats seen (r ∷ rs) = elim (with_run_id r.run_id seen) [
  | none ↦ do (canonical, aliases) ← drop_repeats (r ∷ seen) rs; ok (r ∷ canonical, aliases)
  | some prior ↦ do
    reject (not (text_eq prior.body r.body)) conflicting_run
    (canonical, aliases) ← drop_repeats seen rs
    ok (canonical, (r.comment_id, prior.comment_id) ∷ aliases)
]

-- `aliases[comment_id]`: a later entry takes an earlier one's place.
pub alias_of : ℕ → Aliases → Option ℕ
alias_of id [] = none
alias_of id ((from, to) ∷ aliases) = elim (alias_of id aliases) [
  | none ↦ if from == id then some to else none
  | some later ↦ some later
]

pub resolved : Aliases → Option ℕ → Option ℕ
resolved aliases none = none
resolved aliases (some id) = elim (alias_of id aliases) [ none ↦ some id | some first ↦ some first ]

pub resolve_all : Aliases → List Run → List Run
resolve_all aliases [] = []
resolve_all aliases (r ∷ rs) =
    record r { supersedes = resolved aliases r.supersedes } ∷ resolve_all aliases rs

pub same_id : Option ℕ → Option ℕ → Bool
same_id none none = true
same_id (some a) (some b) = a == b
same_id _ _ = false

-- Each run supersedes the one before it.
pub check_chain : Option ℕ → List Run → Outcome HandoffError (Unit {0})
check_chain parent [] = ok tt
check_chain parent (r ∷ rs) =
    reject (not (same_id r.supersedes parent)) broken_chain >> check_chain (some r.comment_id) rs

pub last_run : List Run → Option Run
last_run [] = none
last_run (r ∷ []) = some r
last_run (r ∷ q ∷ rs) = last_run (q ∷ rs)

abbrev pub run_prefix : Text
run_prefix = codes "<!-- local-review-run:v1"

abbrev pub with_found : Option Run → List Run → List Run
with_found none rs = rs
with_found (some r) rs = r ∷ rs

abbrev pub at_most_one : List EndMarker → Outcome HandoffError (Option EndMarker)
at_most_one [] = ok none
at_most_one (e ∷ []) = ok (some e)
at_most_one (e ∷ f ∷ es) = err two_ends

module _ (patterns : Patterns) where
  open patterns use {run_matches, end_marker, run_digest}

  pub checked_run : ℕ → Text → RunMatch → Outcome HandoffError Run
  checked_run id body m = do
    reject (not (m.start == 0)) malformed_run
    content ← or_raise malformed_run (after_newline m.rest)
    reject (not (m.max_rounds == tier_cap m.tier)) cap_disagrees
    let expected = run_digest m.tier m.max_rounds m.base m.start_head m.supersedes content
    reject (not (text_eq expected m.run_id) || not (text_eq expected m.content_sha)) bad_run_digest
    ok (record {
      base = m.base;
      body = body;
      comment_id = id;
      content = content;
      max_rounds = m.max_rounds;
      run_id = m.run_id;
      start_head = m.start_head;
      supersedes = m.supersedes;
      tier = m.tier;
    })

  -- The pattern has to be found once.
  pub one_match : ℕ → Text → List RunMatch → Outcome HandoffError Run
  one_match id body [] = err malformed_run
  one_match id body (m ∷ []) = checked_run id body m
  one_match id body (m ∷ n ∷ ms) = err malformed_run

  pub read_run : Option ℕ → Option Text → Outcome HandoffError (Option Run)
  read_run (some id) (some body) = elim (has_prefix run_prefix body) [
    | true ↦ one_match id body (run_matches body) >>= (λ r. ok (some r))
    | false ↦ ok none
  ]
  read_run _ _ = ok none

  pub read_runs : List Comment → Outcome HandoffError (List Run)
  read_runs [] = ok []
  read_runs (row ∷ rows) = do
    found ← read_run row.id row.body
    rest ← read_runs rows
    ok (with_found found rest)

  pub run_records : List Comment → Outcome HandoffError (List Run)
  run_records rows = do
    found ← read_runs rows
    (canonical, aliases) ← drop_repeats [] (sort_runs found)
    let records = resolve_all aliases canonical
    check_chain none records
    ok records

  -- The ends of a run among the comments.
  pub ends_of : Text → List Comment → List EndMarker
  ends_of run_id [] = []
  ends_of run_id (row ∷ rows) =
      let rest = ends_of run_id rows in
      elim row.id [
        | none ↦ rest
        | some id ↦ elim row.body [
          | none ↦ rest
          | some body ↦ elim (end_marker body) [
            | none ↦ rest
            | some e ↦ if text_eq e.run_id run_id then e ∷ rest else rest
          ]
        ]
      ]

  pub run_end : List Comment → Text → Outcome HandoffError (Option EndMarker)
  run_end rows run_id = at_most_one (ends_of run_id rows)

-- Names what a run of these opens.
unfoldable pub runs_run : Unit {0}
unfolding after_newline insert_run sort_runs with_run_id drop_repeats alias_of resolved resolve_all
    same_id check_chain last_run checked_run one_match read_run read_runs run_records ends_of
    run_end
runs_run = tt
