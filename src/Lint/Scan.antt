-- ===== src/Lint/Scan.antt =====
-- `front_matter_delimiter`, `_scan_literal_lines` and `literal_content_lines` of
-- lint-collapse-sites.py: which lines of a template are literal content.
pub mod Marks
use codex_platform.Base.{
  ℕ, zero, suc, ◌+◌, ◌-◌, ◌%◌, Bool, true, false, not, ◌&&◌, ◌||◌, List, [], ◌∷◌, ◌++◌, Option,
  none, some, Text, codes, text_eq, elem, leb, ltb, ◌==◌, if◌then◌else◌, all,
}
use codex_platform.Sync.Render.Collapse.{is_trimmed_away}
use codex_platform.Lint.Patterns.{
  FenceMatch, find_fence, ends_with_item, rfind_from, rfind, is_declaration, TagEvent, opens,
  closes, tag_events,
}

-- `s.strip(" \t\r")` and its two halves.
abbrev pub is_trim : ℕ → Bool
is_trim c = c == b' ' || c == b'\t' || c == b'\r'

pub trim_left : Text → Text
trim_left [] = []
trim_left (c ∷ s) = let rest = trim_left s in if is_trim c then rest else c ∷ s

pub trim_right : Text → Text
trim_right [] = []
trim_right (c ∷ s) = if all is_trim (c ∷ s) then [] else c ∷ trim_right s

pub without_bom : Text → Text
without_bom [] = []
without_bom (c ∷ s) = let rest = without_bom s in if c == 0xfeff then rest else c ∷ s

pub front_matter_delimiter : List Text → Option Text
front_matter_delimiter [] = none
front_matter_delimiter (line ∷ lines) =
    let first = trim_right (trim_left (without_bom line)) in
    if text_eq first (codes "---") || text_eq first (codes "+++") then some first else none

pub record Fence : Type 0 where
  pub char : ℕ
  pub size : ℕ
  pub prefix : Text

-- The variables of the loop.
pub record Scanner : Type 0 where
  pub delimiter : Option Text
  pub fence : Option Fence
  pub raw_tag : Option Text
  pub in_comment : Bool
  pub in_processing_instruction : Bool
  pub in_declaration : Bool
  pub in_cdata : Bool

-- A fence stands behind quotes, list markers and blanks only.
pub as_fence : Option FenceMatch → Option FenceMatch
as_fence none = none
as_fence (some m) =
    if all (λ c. elem c (codes " \t>-+*0123456789.)")) m.before then some m else none

pub closes_fence : Bool → Fence → Option FenceMatch → Bool
closes_fence strict fence none = false
closes_fence strict fence (some m) =
    m.char == fence.char
    && leb fence.size m.size
    && (not strict || (text_eq m.before fence.prefix && not (ends_with_item true fence.prefix)))
    && is_trimmed_away m.behind

-- The raw tag behind the events of a line, and whether one was opened there.
pub after_event : TagEvent → Option Text × Bool → Option Text × Bool
after_event (opens name) (none, opened) = (some name, true)
after_event (opens name) (some tag, opened) = (some tag, opened)
after_event (closes name) (none, opened) = (none, opened)
after_event (closes name) (some tag, opened) =
    if text_eq name tag then (none, opened) else (some tag, opened)

pub after_events : List TagEvent → Option Text × Bool → Option Text × Bool
after_events [] state = state
after_events (e ∷ es) state = after_events es (after_event e state)

-- `a > b`, where nothing found is -1.
pub is_later : Option ℕ → Option ℕ → Bool
is_later none b = false
is_later (some a) none = true
is_later (some a) (some b) = ltb b a

abbrev pub is_found : Option ℕ → Bool
is_found none = false
is_found (some i) = true

-- A span over lines: whether the line is inside it or opens it, and whether the next line is inside.
pub touches : Bool → Option ℕ → Bool
touches inside opening = inside || is_found opening

pub stays : Bool → Option ℕ → Option ℕ → Bool
stays inside opening closing =
    if inside && not (is_found opening) then not (is_found closing) else is_later opening closing

-- The columns of the indentation, with tab stops of four.
pub columns_from : ℕ → Text → ℕ
columns_from n [] = n
columns_from n (c ∷ s) =
    let next = columns_from (n + 1) s in
    let tabbed = columns_from (n + (4 - n % 4)) s in
    if c == b' ' then next else if c == b'\t' then tabbed else n

abbrev has_tag : Option Text → Bool
has_tag none = false
has_tag (some t) = true

pub opened : FenceMatch → Fence
opened m = record { char = m.char; size = m.size; prefix = m.before }

module _ (is_word : ℕ → Bool) where
  abbrev raw_after : Text → Option Text → Option Text × Bool
  raw_after line tag = after_events (tag_events is_word line) (tag, has_tag tag)

  -- A line that is in no front matter and no fence.
  pub scan_prose : Text → Scanner → Bool × Scanner
  scan_prose line s =
      let raw = raw_after line s.raw_tag in
      let comment_open = rfind (codes "<!--") line in
      let comment_close = rfind (codes "-->") line in
      let processing_open = rfind (codes "<?") line in
      let processing_close = rfind (codes "?>") line in
      let cdata_open = rfind (codes "<![CDATA[") line in
      let cdata_close = rfind (codes "]]>") line in
      let declaration_open = rfind_from 0 is_declaration line in
      let declaration_close = rfind (codes ">") line in
      (
        raw.1
            || touches s.in_comment comment_open
            || touches s.in_processing_instruction processing_open
            || touches s.in_cdata cdata_open
            || touches s.in_declaration declaration_open
            || leb 4 (columns_from 0 line),
        record s {
          raw_tag = raw.0;
          in_comment = stays s.in_comment comment_open comment_close;
          in_processing_instruction =
              stays s.in_processing_instruction processing_open processing_close;
          in_cdata = stays s.in_cdata cdata_open cdata_close;
          in_declaration = stays s.in_declaration declaration_open declaration_close;
        },
      )

  pub scan_markdown : Bool → Text → Scanner → Option Fence → Option FenceMatch → Bool × Scanner
  scan_markdown strict line s none (some m) = (true, record s { fence = some (opened m) })
  scan_markdown strict line s (some fence) m =
      (true, record s { fence = if closes_fence strict fence m then none else some fence })
  scan_markdown strict line s none none = scan_prose line s

  -- The closing delimiter stands on a line of its own behind the first.
  pub scan_line : Bool → ℕ → Text → Scanner → Option Text → Bool × Scanner
  scan_line strict i line s (some d) = (
    true,
    record s { delimiter = if ltb 0 i && text_eq (trim_right line) d then none else some d },
  )
  scan_line strict i line s none = scan_markdown strict line s s.fence (as_fence (find_fence line))

  pub scan_from : Bool → ℕ → List Text → Scanner → List Bool
  scan_from strict i [] s = []
  scan_from strict i (line ∷ lines) s =
      let (literal, after) = scan_line strict i line s s.delimiter in
      literal ∷ scan_from strict (suc i) lines after

  pub scan_literal_lines : List Text → Option Text → Bool → List Bool
  scan_literal_lines lines delimiter strict = scan_from strict 0 lines (record {
    delimiter = delimiter;
    fence = none;
    raw_tag = none;
    in_comment = false;
    in_processing_instruction = false;
    in_declaration = false;
    in_cdata = false;
  })

-- `[any(marks) for marks in zip(*scans)]`
pub any_mark : List Bool → List Bool → List Bool
any_mark (a ∷ marks) (b ∷ others) = (a || b) ∷ any_mark marks others
any_mark _ _ = []

module _ (is_word : ℕ → Bool) where
  pub both_readings : List Text → Option Text → List Bool
  both_readings lines delimiter =
      any_mark (scan_literal_lines is_word lines delimiter true)
        (scan_literal_lines is_word lines delimiter false)

  pub with_front_matter : List Text → Option Text → List Bool
  with_front_matter lines none = both_readings lines none
  with_front_matter lines (some d) =
      any_mark (both_readings lines none) (both_readings lines (some d))

  pub literal_content_lines : List Text → List Bool
  literal_content_lines lines = with_front_matter lines (front_matter_delimiter lines)

-- Names what a scan opens.
unfoldable pub scan_run : Unit {0}
unfolding trim_left trim_right without_bom front_matter_delimiter as_fence closes_fence after_event
    after_events is_later touches stays columns_from scan_prose opened scan_markdown scan_line
    scan_from scan_literal_lines any_mark both_readings with_front_matter literal_content_lines
scan_run = tt
