-- ===== src/Queue/Ready.antt =====
-- .codex/skills/issues/scripts/ready.py: the open issues that nothing blocks, most urgent first.
-- The lists come from `gh`; what the regular expression BLOCKER_RE finds in a body is a parameter.
pub mod Order
pub mod Complete
use codex_platform.Base.{
  ℕ, suc, ◌+◌, ◌-◌, String, Bool, true, false, not, ◌&&◌, ◌||◌, List, [], ◌∷◌, Option, none, some,
  Text, codes, has_prefix, any, length, take, str_eq, ltb, leb, ◌==◌, if◌then◌else◌,
}
use codex_platform.Base.Value.{ℤ, pos, negsuc, elem_str}

pub data Priority : Type 0 where
  critical high medium low unknown : Priority

-- The members' values.
abbrev pub value : Priority → ℕ
value critical = 0
value high = 1
value medium = 2
value low = 3
value unknown = 99

-- `Priority.label`
label_of : Priority → String
label_of critical = "priority: critical"
label_of high = "priority: high"
label_of medium = "priority: medium"
label_of low = "priority: low"
label_of unknown = ""

first_labelled : List Priority → String → Priority
first_labelled [] l = unknown
first_labelled (p ∷ ps) l =
    let rest = first_labelled ps l in
    if not (str_eq (label_of p) "") && str_eq (label_of p) l then p else rest

from_label : String → Priority
from_label l = first_labelled (critical ∷ high ∷ medium ∷ low ∷ unknown ∷ []) l

-- Python's `min` of two: the first of equals.
lesser : Priority → Priority → Priority
lesser p q = if ltb (value q) (value p) then q else p

least : Priority → List String → Priority
least p [] = p
least p (l ∷ ls) = least (lesser p (from_label l)) ls

priority_of : List String → Priority
priority_of [] = unknown
priority_of (l ∷ ls) = least (from_label l) ls

-- What the script reads of an issue: whether it has assignees, and its body, if any.
pub record Issue : Type 0 where
  pub number : ℕ
  pub labels : List String
  pub assigned : Bool
  pub body : Option Text

pub priority_score : Issue → Priority
priority_score issue = priority_of issue.labels

abbrev hard_exclude_labels : List String
hard_exclude_labels = "status: blocked" ∷ "status: on-staging" ∷ []

abbrev bail_label_prefix : String
bail_label_prefix = "agent-bail:"

excludes : String → Bool
excludes l = elem_str l hard_exclude_labels || has_prefix (codes bail_label_prefix) (codes l)

pub is_hard_excluded : List String → Bool
is_hard_excluded ls = any excludes ls

abbrev pub elem_num : ℕ → List ℕ → Bool
elem_num n [] = false
elem_num n (m ∷ ms) = (n == m) || elem_num n ms

-- The key `(priority_score(i), i["number"])`: whether the first is at most the second.
pub at_most : Issue → Issue → Bool
at_most i j =
    let p = value (priority_score i) in
    let q = value (priority_score j) in ltb p q || ((p == q) && leb i.number j.number)

-- A stable sort by the key.
pub insert : Issue → List Issue → List Issue
insert i [] = i ∷ []
insert i (j ∷ js) = let rest = insert i js in if at_most i j then i ∷ j ∷ js else j ∷ rest

pub sort : List Issue → List Issue
sort [] = []
sort (i ∷ is) = insert i (sort is)

-- `ready[:limit]`: a negative limit counts from the end.
pub first_issues : ℤ → List Issue → List Issue
first_issues (pos n) is = take n is
first_issues (negsuc n) is = take (length is - suc n) is

-- `find_blockers` is what BLOCKER_RE finds in a body, as numbers.
module _ (find_blockers : Text → List ℕ) where
  -- A missing body is read as "".
  parse_blockers : Option Text → List ℕ
  parse_blockers none = find_blockers []
  parse_blockers (some b) = find_blockers b

  -- `blockers & open_nums` is not empty.
  pub is_blocked : List ℕ → Issue → Bool
  is_blocked open_nums issue = any (λ n. elem_num n open_nums) (parse_blockers issue.body)

  -- One round of the loop of `main`: whether the issue is kept.
  pub is_ready : (unassigned : Bool) (open_nums addressed : List ℕ) → Issue → Bool
  is_ready unassigned open_nums addressed issue =
      if unassigned && issue.assigned
      then false
      else if is_hard_excluded issue.labels
      then false
      else if is_blocked open_nums issue
      then false
      else if elem_num issue.number addressed
      then false
      else true

  pub kept : (unassigned : Bool) (open_nums addressed : List ℕ) → List Issue → List Issue
  kept unassigned open_nums addressed [] = []
  kept unassigned open_nums addressed (i ∷ is) =
      let rest = kept unassigned open_nums addressed is in
      if is_ready unassigned open_nums addressed i then i ∷ rest else rest

  -- The list that `main` prints.
  pub ready_list :
      (unassigned : Bool) (open_nums addressed : List ℕ) (limit : ℤ) → List Issue → List Issue
  ready_list unassigned open_nums addressed limit issues =
      first_issues limit (sort (kept unassigned open_nums addressed issues))

-- Names what the list opens.
unfoldable pub ready_run : Unit {0}
unfolding label_of first_labelled from_label lesser least priority_of priority_score excludes
    is_hard_excluded at_most insert sort first_issues parse_blockers is_blocked is_ready kept
    ready_list
ready_run = tt
