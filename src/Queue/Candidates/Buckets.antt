-- ===== src/Queue/Candidates/Buckets.antt =====
-- The buckets that `main` of candidates.py fills and prints, and the marker of RUBRIC.md.
use codex_platform.Base.{
  ℕ, ◌≤◌, String, ◌≡◌, refl, ◌∙◌, Bool, true, false, not, ◌&&◌, List, [], ◌∷◌, Option, none, some,
  Text, codes, has_prefix, any, All, ◌==◌, if◌then◌else◌, if_ind, leb, leb→le, take, split_on,
  arith,
}
use codex_platform.Base.Value.{elem_str}
use codex_platform.Queue.Candidates.{
  Bucket, skipped, ready, reverify, excluded, epic, unrefined, Candidate, classify, candidates_run,
  is_managed, has_bail, has_label, ready_label, refined_label, has_epic_title,
}

pub record Listed : Type 0 where
  pub number : ℕ
  pub issue : Candidate

abbrev same_bucket : Bucket → Bucket → Bool
same_bucket skipped skipped = true
same_bucket ready ready = true
same_bucket reverify reverify = true
same_bucket excluded excluded = true
same_bucket epic epic = true
same_bucket unrefined unrefined = true
same_bucket _ _ = false

-- `items.sort(key=lambda i: i["number"])`, a stable sort.
insert : Listed → List Listed → List Listed
insert i [] = i ∷ []
insert i (j ∷ js) = let rest = insert i js in if leb i.number j.number then i ∷ j ∷ js else j ∷ rest

sort : List Listed → List Listed
sort [] = []
sort (i ∷ is) = insert i (sort is)

-- `buckets[b]` after the loop.
pub filled : List String → Bucket → List Listed → List Listed
filled managed b [] = []
filled managed b (i ∷ is) =
    let rest = filled managed b is in
    if same_bucket (classify managed i.issue) b then i ∷ rest else rest

pub bucket : List String → Bucket → List Listed → List Listed
bucket managed b issues = sort (filled managed b issues)

-- The rows of a section under the limit.
pub section_rows : ℕ → List Listed → List Listed
section_rows limit rows = take limit rows

-- The labels between the commas of the marker's text; `strip` is `str.strip`.
non_empty : List Text → List Text
non_empty [] = []
non_empty ([] ∷ ts) = non_empty ts
non_empty ((c ∷ t) ∷ ts) = (c ∷ t) ∷ non_empty ts

all_stripped : (Text → Text) → List Text → List Text
all_stripped strip [] = []
all_stripped strip (t ∷ ts) = strip t ∷ all_stripped strip ts

-- The end of `load_auto_managed_labels`, from what the marker's expression finds on: no marker is no
-- label, and a second one ends the script.
pub managed_labels : (Text → Text) → List Text → Option (List Text)
managed_labels strip [] = some []
managed_labels strip (m ∷ []) = some (non_empty (all_stripped strip (split_on b',' m)))
managed_labels strip (m ∷ n ∷ ms) = none

-- Whether an issue with this number and a property is listed.
abbrev pub lists : ℕ → (Candidate → Bool) → List Listed → Bool
lists n p is = any (λ i. n == i.number && p i.issue) is

abbrev pub any_issue : Candidate → Bool
any_issue issue = true

-- The labels of the trusted queue, without the calls of `classify`.
abbrev pub is_trusted : List String → Candidate → Bool
is_trusted managed issue =
    not (any (λ l. elem_str l managed) issue.labels)
    && not (any (λ l. has_prefix (codes "agent-bail:") (codes l)) issue.labels)
    && elem_str "dev: agent" issue.labels
    && elem_str "agent: refined" issue.labels

ready_case :
    (managed bail labelled refined epical : Bool)
    → same_bucket
        (if managed
          then skipped
          else if bail
          then excluded
          else if labelled
          then (if refined then ready else reverify)
          else if refined
          then excluded
          else if epical
          then epic
          else unrefined)
        ready
      ≡ (not managed && not bail && labelled && refined)
ready_case true b c d e = refl
ready_case false true c d e = refl
ready_case false false true true e = refl
ready_case false false true false e = refl
ready_case false false false true e = refl
ready_case false false false false true = refl
ready_case false false false false false = refl

is_trusted-classify :
    (managed : List String) (issue : Candidate)
    → same_bucket (classify managed issue) ready ≡ is_trusted managed issue
unfolding candidates_run
is_trusted-classify managed issue =
    ready_case (is_managed managed issue) (has_bail issue) (has_label ready_label issue)
      (has_label refined_label issue) (has_epic_title issue)

lists-insert :
    (n : ℕ) (i : Listed) (is : List Listed)
    → lists n any_issue (insert i is) ≡ lists n any_issue (i ∷ is)
unfolding insert
lists-insert n i [] = refl
lists-insert n i (j ∷ js) = ground (arith, lists-insert n i js)

lists-sort : (n : ℕ) (is : List Listed) → lists n any_issue (sort is) ≡ lists n any_issue is
unfolding sort
lists-sort n [] = refl
lists-sort n (i ∷ is) = ground (arith, lists-insert n i (sort is), lists-sort n is)

lists-filled :
    (managed : List String) (n : ℕ) (issues : List Listed)
    → lists n any_issue (filled managed ready issues) ≡ lists n (is_trusted managed) issues
unfolding filled
lists-filled managed n [] = refl
lists-filled managed n (i ∷ is) =
    ground (arith, is_trusted-classify managed i.issue, lists-filled managed n is)

-- The rows are in the order of the issues' numbers.
abbrev pub Ordered : List Listed → Type 0
Ordered [] = Unit
Ordered (i ∷ is) = All (λ (j : Listed). i.number ≤ j.number) is × Ordered is

insert-All :
    (a : ℕ) (i : Listed) (is : List Listed)
    → a ≤ i.number
    → All (λ (j : Listed). a ≤ j.number) is
    → All (λ (j : Listed). a ≤ j.number) (insert i is)
unfolding insert
insert-All a i [] h hs = (h, tt)
insert-All a i (j ∷ js) h hs =
    if_ind (All (λ (k : Listed). a ≤ k.number)) (leb i.number j.number) (λ before. (h, hs))
      (λ after. (hs.0, insert-All a i js h hs.1))

All-above :
    (a b : ℕ) (is : List Listed)
    → a ≤ b
    → All (λ (j : Listed). b ≤ j.number) is
    → All (λ (j : Listed). a ≤ j.number) is
All-above a b [] h hs = tt
All-above a b (i ∷ is) h hs = (omega (arith, hs.0), All-above a b is h hs.1)

insert-Ordered : (i : Listed) (is : List Listed) → Ordered is → Ordered (insert i is)
unfolding insert
insert-Ordered i [] h = (tt, tt)
insert-Ordered i (j ∷ js) h =
    if_ind Ordered (leb i.number j.number)
      (λ before.
        let le = leb→le i.number j.number before in
        ((le, All-above i.number j.number js le h.0), h))
      (λ after. (insert-All j.number i js (ground arith) h.0, insert-Ordered i js h.1))

sort-Ordered : (is : List Listed) → Ordered (sort is)
unfolding sort
sort-Ordered [] = tt
sort-Ordered (i ∷ is) = insert-Ordered i (sort is) (sort-Ordered is)

-- A number is in the ready bucket that `main` prints exactly if an issue with this number is
-- given that has both `dev: agent` and `agent: refined` and no bail or workflow-managed label,
-- and the bucket is in the order of the numbers.
pub ready_bucket :
    (managed : List String) (issues : List Listed) (n : ℕ)
    → (lists n any_issue (bucket managed ready issues) ≡ lists n (is_trusted managed) issues)
      × Ordered (bucket managed ready issues)
unfolding bucket
ready_bucket managed issues n = (
  lists-sort n (filled managed ready issues) ∙ lists-filled managed n issues,
  sort-Ordered (filled managed ready issues),
)

-- Names what the listing opens.
unfoldable pub buckets_run : Unit {0}
unfolding insert sort filled bucket section_rows non_empty all_stripped managed_labels
buckets_run = tt
