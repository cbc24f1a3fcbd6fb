-- ===== src/Queue/Candidates.antt =====
-- .codex/skills/backlog-refinement/scripts/candidates.py: the buckets of the refinement queue. The
-- labels that RUBRIC.md declares as managed by workflows are an argument.
pub mod Buckets
use codex_platform.Base.{
  ℕ, ◌+◌, String, ◌≡◌, ◌↔◌, Bool, true, false, ◌&&◌, List, [], ◌∷◌, Text, codes, has_prefix,
  has_part, any, map, if◌then◌else◌, leb, arith,
}
use codex_platform.Base.Value.{elem_str}

abbrev pub refined_label : String
refined_label = "agent: refined"

abbrev pub ready_label : String
ready_label = "dev: agent"

abbrev bail_prefix : String
bail_prefix = "agent-bail:"

abbrev epic_title_markers : List Text
epic_title_markers = codes "epic:" ∷ []

pub data Bucket : Type 0 where
  skipped ready reverify excluded epic unrefined : Bucket

pub record Candidate : Type 0 where
  pub labels : List String
  pub title : Text

-- `str.lower` on the characters that can meet a marker, which are those of ASCII.
lower_char : ℕ → ℕ
lower_char c = if leb 65 c && leb c 90 then c + 32 else c

-- The five tests of `classify`, in its order.
pub is_managed : List String → Candidate → Bool
is_managed managed issue = any (λ l. elem_str l managed) issue.labels

pub has_bail : Candidate → Bool
has_bail issue = any (λ l. has_prefix (codes bail_prefix) (codes l)) issue.labels

pub has_label : String → Candidate → Bool
has_label l issue = elem_str l issue.labels

pub has_epic_title : Candidate → Bool
has_epic_title issue =
    any (λ marker. has_part marker (map lower_char issue.title)) epic_title_markers

pub classify : List String → Candidate → Bucket
classify managed issue =
    if is_managed managed issue
    then skipped
    else if has_bail issue
    then excluded
    else if has_label ready_label issue
    then (if has_label refined_label issue then ready else reverify)
    else if has_label refined_label issue
    then excluded
    else if has_epic_title issue
    then epic
    else unrefined

-- An issue is `ready`, the trusted queue, exactly if it has both `dev: agent` and `agent:
-- refined` and no bail or workflow-managed label; it is `unrefined`, the work queue, exactly if
-- it has none of these labels and no epic's title.
pub classify_lem :
    (managed : List String) (issue : Candidate)
    → ((classify managed issue ≡ ready) ↔ (
        (is_managed managed issue ≡ false)
        × ((has_bail issue ≡ false)
            × ((has_label ready_label issue ≡ true) × (has_label refined_label issue ≡ true)))))
      × ((classify managed issue ≡ unrefined) ↔ (
          (is_managed managed issue ≡ false)
          × ((has_bail issue ≡ false)
              × ((has_label ready_label issue ≡ false)
                  × ((has_label refined_label issue ≡ false) × (has_epic_title issue ≡ false))))))
unfolding classify
classify_lem managed issue = ground arith

-- Names what `classify` opens.
unfoldable pub candidates_run : Unit {0}
unfolding lower_char is_managed has_bail has_label has_epic_title classify
candidates_run = tt
