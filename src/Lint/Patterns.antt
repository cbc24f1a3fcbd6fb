-- ===== src/Lint/Patterns.antt =====
-- The regular expressions of lint-collapse-sites.py, as searches in a line. Which characters are word
-- characters of `\b` is a parameter; only what stands behind a tag's name depends on it.
use codex_platform.Base.{
  ℕ, zero, suc, ◌+◌, Bool, true, false, not, ◌&&◌, ◌||◌, List, [], ◌∷◌, Option, none, some, Text,
  codes, has_prefix, is_digit, elem, leb, ◌==◌, if◌then◌else◌, all, take, length, map,
}
use codex_platform.Sync.Glob.{lower}
use codex_platform.Commit.Message.{is_space}

-- How often a character stands at the start, and what follows.
pub run_of : ℕ → Text → ℕ × Text
run_of c [] = (0, [])
run_of c (d ∷ s) = let (n, rest) = run_of c s in if d == c then (suc n, rest) else (0, d ∷ s)

-- A match of FENCE_RE: what stands before it, its character and length, and what follows.
pub record FenceMatch : Type 0 where
  pub before : Text
  pub char : ℕ
  pub size : ℕ
  pub behind : Text

pub fence_at : ℕ → Text → Option FenceMatch
fence_at c s =
    let (n, rest) = run_of c s in
    if leb 3 n then some (record { before = []; char = c; size = n; behind = rest }) else none

-- Three or more backticks, or as many tildes.
pub fence_start : Text → Option FenceMatch
fence_start s = elim (fence_at b'`' s) [ some m ↦ some m | none ↦ fence_at b'~' s ]

abbrev behind_char : ℕ → Option FenceMatch → Option FenceMatch
behind_char c none = none
behind_char c (some m) = some (record m { before = c ∷ m.before })

pub find_fence : Text → Option FenceMatch
find_fence [] = none
find_fence (c ∷ s) = elim (fence_start (c ∷ s)) [
  | some m ↦ some m
  | none ↦ behind_char c (find_fence s)
]

-- Blanks to the end, at least one.
abbrev is_gap : ℕ → Bool
is_gap c = c == b' ' || c == b'\t'

pub blank_tail : Text → Bool
blank_tail [] = false
blank_tail (c ∷ s) = all is_gap (c ∷ s)

-- Up to so many digits more, then a full stop or a parenthesis, and blanks.
pub numbered : ℕ → Text → Bool
numbered n [] = false
numbered zero (c ∷ s) = (c == b'.' || c == b')') && blank_tail s
numbered (suc n) (c ∷ s) =
    let more = numbered n s in if is_digit c then more else (c == b'.' || c == b')') && blank_tail s

pub list_marker : Text → Bool
list_marker [] = false
list_marker (c ∷ s) = (elem c (codes "-+*") && blank_tail s) || (is_digit c && numbered 8 s)

-- LIST_ITEM_FENCE_PREFIX_RE.search: the flag tells that a marker may start here.
pub ends_with_item : Bool → Text → Bool
ends_with_item may [] = false
ends_with_item may (c ∷ s) =
    (may && list_marker (c ∷ s)) || ends_with_item (elem c (codes " \t>")) s

-- `line.rfind(part)` as an index, from an index on.
pub rfind_from : ℕ → (Text → Bool) → Text → Option ℕ
rfind_from i starts [] = none
rfind_from i starts (c ∷ s) = elim (rfind_from (suc i) starts s) [
  | some later ↦ some later
  | none ↦ if starts (c ∷ s) then some i else none
]

pub rfind : Text → Text → Option ℕ
rfind part line = rfind_from 0 (has_prefix part) line

-- `<![A-Z]`
pub is_declaration : Text → Bool
is_declaration (a ∷ b ∷ c ∷ s) = a == b'<' && b == b'!' && leb b'A' c && leb c b'Z'
is_declaration _ = false

-- A tag's name at the start under `re.IGNORECASE`, and what follows it.
pub name_at : Text → Text → Option Text
name_at [] s = some s
name_at (c ∷ name) [] = none
name_at (c ∷ name) (d ∷ s) = let rest = name_at name s in if lower d == c then rest else none

abbrev pub raw_names : List Text
raw_names = codes "pre" ∷ codes "script" ∷ codes "style" ∷ codes "textarea" ∷ []

pub skip_spaces : Text → Text
skip_spaces [] = []
skip_spaces (c ∷ s) = let rest = skip_spaces s in if is_space c then rest else c ∷ s

-- The tag's name as it is written, by `str.lower`. Beyond ASCII no letter that matches has a lower
-- case that another one has.
abbrev ascii_lower : ℕ → ℕ
ascii_lower c = if leb b'A' c && leb c b'Z' then c + 32 else c

pub spelled : Text → Text → Text
spelled name s = map ascii_lower (take (length name) s)

-- What opens or closes raw content.
pub data TagEvent : Type 0 where
  opens closes : Text → TagEvent

pub closing_at : List Text → Text → Option TagEvent
closing_at [] s = none
closing_at (name ∷ names) s = elim (name_at name s) [
  | none ↦ closing_at names s
  | some rest ↦
      let others = closing_at names s in
      if has_prefix (codes ">") (skip_spaces rest) then some (closes (spelled name s)) else others
]

module _ (is_word : ℕ → Bool) where
  pub at_boundary : Text → Bool
  at_boundary [] = true
  at_boundary (c ∷ s) = not (is_word c)

  pub opening_at : List Text → Text → Option TagEvent
  opening_at [] s = none
  opening_at (name ∷ names) s = elim (name_at name s) [
    | none ↦ opening_at names s
    | some rest ↦
        let others = opening_at names s in
        if at_boundary rest then some (opens (spelled name s)) else others
  ]

  pub event_at : Text → Option TagEvent
  event_at [] = none
  event_at (c ∷ []) = none
  event_at (c ∷ d ∷ s) =
      if c == b'<'
      then if d == b'/' then closing_at raw_names s else opening_at raw_names (d ∷ s)
      else none

  -- RAW_TAG_EVENT_RE.finditer: a match holds no `<` but its first character, so no two overlap.
  pub tag_events : Text → List TagEvent
  tag_events [] = []
  tag_events (c ∷ s) = elim (event_at (c ∷ s)) [ none ↦ tag_events s | some e ↦ e ∷ tag_events s ]

-- Names what a search opens.
unfoldable pub patterns_run : Unit {0}
unfolding run_of fence_at fence_start find_fence blank_tail numbered list_marker ends_with_item
    rfind_from rfind is_declaration name_at skip_spaces spelled closing_at at_boundary opening_at
    event_at tag_events
patterns_run = tt
