-- ===== src/Queue/Addressed.antt =====
-- .codex/skills/issues/scripts/ready.py: the issues that a pull request addresses already, by its
-- links or else by the closing keywords of its body. What CLOSING_KEYWORD_RE finds in prose, where
-- `str.splitlines` divides a body, and which characters `str.lstrip` takes off are parameters.
pub mod Prose
pub mod Linked
use codex_platform.Base.{
  ℕ, String, Bool, true, false, not, ◌&&◌, ◌||◌, List, [], ◌∷◌, ◌++◌, Option, none, some, Text,
  codes, str_eq, has_prefix, has_part, text_eq, ◌==◌, if◌then◌else◌, split_on, join_with,
}
use codex_platform.Queue.Ready.{elem_num}

-- `FENCE_RE.match(line)`
pub is_fence : Text → Bool
is_fence [] = false
is_fence (c ∷ s) =
    let rest = is_fence s in
    if c == b' ' || c == b'\t'
    then rest
    else has_prefix (codes "```") (c ∷ s) || has_prefix (codes "~~~") (c ∷ s)

-- The parts between backticks: every second one is code, and a last backtick without another stays.
outside_code : List Text → Text
outside_code [] = []
outside_code (p ∷ []) = p
outside_code (p ∷ q ∷ []) = p ++ b'`' ∷ q
outside_code (p ∷ q ∷ r ∷ rest) = p ++ outside_code (r ∷ rest)

-- `INLINE_CODE_RE.sub("", line)`
without_code : Text → Text
without_code line = outside_code (split_on b'`' line)

-- A linked issue, with its repository's owner and name.
pub record Ref : Type 0 where
  pub owner : Option String
  pub name : Option String
  pub number : ℕ

-- `_ref_repo(ref)`, for texts that are there and not empty.
full_name : String → String → Option Text
full_name owner name =
    if str_eq owner "" || str_eq name "" then none else some (codes owner ++ b'/' ∷ codes name)

pub ref_repo : Option String → Option String → Option Text
ref_repo (some owner) (some name) = full_name owner name
ref_repo _ _ = none

pub record PullRequest : Type 0 where
  pub number : ℕ
  pub refs : List Ref
  pub body : Text

module _ (is_space : ℕ → Bool) where
  -- `line.lstrip()`
  stripped : Text → Text
  stripped [] = []
  stripped (c ∷ s) = let rest = stripped s in if is_space c then rest else c ∷ s

  -- The loop of `parse_closing_keywords` over the lines; the flags are `in_fence` and `in_comment`.
  pub prose : (in_fence in_comment : Bool) → List Text → List Text
  prose in_fence in_comment [] = []
  prose in_fence in_comment (line ∷ lines) =
      let s = stripped line in
      let toggled = prose (not in_fence) in_comment lines in
      let fenced = prose in_fence in_comment lines in
      let commented = prose in_fence (not (has_part (codes "-->") s)) lines in
      let rest = prose in_fence in_comment lines in
      if is_fence line
      then toggled
      else if in_fence
      then fenced
      else if in_comment
      then commented
      else if has_prefix (codes "<!--") s
      then commented
      else if has_prefix (codes ">") s
      then rest
      else without_code line ∷ rest

  module _ (splitlines : Text → List Text) (find_closing : Text → List ℕ) where
    pub parse_closing_keywords : Text → List ℕ
    parse_closing_keywords body =
        find_closing (join_with b'\n' (prose false false (splitlines body)))

    pub of_repo : Text → List Ref → List ℕ
    of_repo repo [] = []
    of_repo repo (r ∷ rs) =
        let rest = of_repo repo rs in
        elim (ref_repo r.owner r.name) [
          | none ↦ rest
          | some full ↦ if text_eq full repo then r.number ∷ rest else rest
        ]

    pub or_keywords : List ℕ → Text → List ℕ
    or_keywords [] body = parse_closing_keywords body
    or_keywords (n ∷ ns) body = n ∷ ns

    -- What one pull request addresses.
    pub closes : Text → PullRequest → List ℕ
    closes repo pr = or_keywords (of_repo repo pr.refs) pr.body

    -- The loop of `fetch_addressed_numbers`.
    pub addressed_numbers : Text → List ℕ → List PullRequest → List ℕ
    addressed_numbers repo excluded [] = []
    addressed_numbers repo excluded (pr ∷ prs) =
        let rest = addressed_numbers repo excluded prs in
        if elem_num pr.number excluded then rest else closes repo pr ++ rest

-- Names what the loop opens.
unfoldable pub addressed_run : Unit {0}
unfolding is_fence outside_code without_code full_name ref_repo stripped prose
    parse_closing_keywords of_repo or_keywords closes addressed_numbers
addressed_run = tt
