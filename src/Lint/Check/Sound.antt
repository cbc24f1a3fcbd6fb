-- ===== src/Lint/Check/Sound.antt =====
-- On `check_source` of lint-collapse-sites.py and `drop_empty_placeholder_lines` of sync-engine.py:
-- the sites of a source without violations.
use mathlib.Core.Path.{subst}
use codex_platform.Base.{
  ℕ, zero, suc, ◌+◌, ◌≡◌, refl, ap, ◌∙◌, Bool, true, false, not, List, [], ◌∷◌, ◌++◌, Option, none,
  some, Text, text_eq, text_eq→eq, arith, all, get_elem?, Bool-cases, inl, inr, &&-true,
}
use codex_platform.Sync.Render.Tokens.{tokens, render, holes}
use codex_platform.Sync.Render.Collapse.{
  has_text, is_trimmed_away, is_blank, qualifies, pass_over, Rendered, value_of, is_empty_key,
  collapse_run,
}
use codex_platform.Sync.Render.Collapse.Drops.{pass_over-drops}
use codex_platform.Lint.Scan.{literal_content_lines, scan_literal_lines, front_matter_delimiter}
use codex_platform.Lint.Scan.Marks.{literal_content_lines-marks, unmarked}
use codex_platform.Lint.Check.{
  Reason, Violation, insert_key, sorted_set, among, line_keys, blank_before, site_reason, at_site,
  line_violations, lines_violations, check_source,
}

append-nil_parts : (xs ys : List Violation) → xs ++ ys ≡ [] → (xs ≡ []) × (ys ≡ [])
append-nil_parts [] ys h = (refl, h)
append-nil_parts (x ∷ xs) ys h = cc

-- Sorting loses no key.
insert_key-filled : (key : Text) (ks : List Text) → insert_key key ks ≡ [] → ⊥
unfolding insert_key
insert_key-filled key [] h = cc
insert_key-filled key (k ∷ ks) h = ground arith

pub sorted_set-filled :
    (key : Text) (ks : List Text) → has_text key ks ≡ true → sorted_set ks ≡ [] → ⊥
unfolding sorted_set
sorted_set-filled key [] there h = cc
sorted_set-filled key (k ∷ ks) there h = insert_key-filled k (sorted_set ks) h

at_site-none :
    (i : ℕ) (reason : Option Reason) (ks : List Text)
    → at_site i reason ks ≡ []
    → (ks ≡ [] → ⊥)
    → reason ≡ none
unfolding at_site
at_site-none i none ks h filled = refl
at_site-none i (some reason) [] h filled = absurd (filled refl)
at_site-none i (some reason) (k ∷ ks) h filled = cc

present-filled :
    (keys collapse : List Text) (key : Text)
    → has_text key collapse ≡ true
    → has_text key keys ≡ true
    → sorted_set (among keys collapse) ≡ []
    → ⊥
unfolding sorted_set among
present-filled [] collapse key wanted there h = cc
present-filled (k ∷ ks) collapse key wanted there h = elim (Bool-cases (has_text k collapse)) [
  | inl kept ↦ absurd (insert_key-filled k (sorted_set (among ks collapse)) (rw kept at h))
  | inr dropped ↦ elim (Bool-cases (text_eq k key)) [
    | inl same ↦ absurd (cc (rw (text_eq→eq k key same) at dropped, wanted))
    | inr other ↦ present-filled ks collapse key wanted (rw other at there) (rw dropped at h)
  ]
]

some-eq {ℓ} : {A : Type ℓ} {a b : A} → ◌≡◌ {A = Option A} (some a) (some b) → a ≡ b
some-eq h = cc

subst2 : (P : ℕ → Bool → Type 0) {i j : ℕ} {a b : Bool} → i ≡ j → a ≡ b → P i a → P j b
subst2 P {i} {j} {a} {b} e f h = subst (λ n. P n b) e (subst (λ c. P i c) f h)

-- What the reasons leave.
record Clean (collapse lines : List Text) (literal : Bool) (i : ℕ) (line : Text) : Type 0 where
  prose : literal ≡ false
  own_keys : all (λ k. has_text k collapse) (line_keys line) ≡ true
  alone : is_trimmed_away (render (λ _. []) (tokens line)) ≡ true
  before : blank_before lines i ≡ true
  after : is_blank lines (some (suc i)) ≡ true

site_reason-Clean :
    (collapse lines : List Text) (literal : Bool) (i : ℕ) (line : Text)
    → site_reason collapse lines literal i line ≡ none
    → Clean collapse lines literal i line
unfolding site_reason
site_reason-Clean collapse lines literal i line h = record {
  prose = ground arith;
  own_keys = ground arith;
  alone = ground arith;
  before = ground arith;
  after = ground arith;
}

line_violations-Clean :
    (collapse lines : List Text) (literal : Bool) (i : ℕ) (line key : Text)
    → line_violations collapse lines literal i line ≡ []
    → has_text key collapse ≡ true
    → has_text key (line_keys line) ≡ true
    → Clean collapse lines literal i line
unfolding line_violations
line_violations-Clean collapse lines literal i line key h wanted there =
    site_reason-Clean collapse lines literal i line (
      at_site-none i (site_reason collapse lines literal i line)
        (sorted_set (among (line_keys line) collapse)) h
        (present-filled (line_keys line) collapse key wanted there))

lines_violations-at :
    (collapse lines : List Text) (i j : ℕ) (marks : List Bool) (rest : List Text) (literal : Bool)
    (line : Text)
    → lines_violations collapse lines i marks rest ≡ []
    → get_elem? marks j ≡ some literal
    → get_elem? rest j ≡ some line
    → line_violations collapse lines literal (i + j) line ≡ []
unfolding lines_violations
lines_violations-at collapse lines i j [] rest literal line h marked found = cc
lines_violations-at collapse lines i j (m ∷ marks) [] literal line h marked found = cc
lines_violations-at collapse lines i zero (m ∷ marks) (l ∷ rest) literal line h marked found =
    let (here, _) =
      append-nil_parts (line_violations collapse lines m i l)
        (lines_violations collapse lines (suc i) marks rest) h in
    subst2 (λ n b. line_violations collapse lines b n line ≡ []) (omega arith) (some-eq marked)
      (subst (λ t. line_violations collapse lines m i t ≡ []) (some-eq found) here)
lines_violations-at collapse lines i (suc j) (m ∷ marks) (l ∷ rest) literal line h marked found =
    let (_, later) =
      append-nil_parts (line_violations collapse lines m i l)
        (lines_violations collapse lines (suc i) marks rest) h in
    subst (λ n. line_violations collapse lines literal n line ≡ []) (omega arith)
      (lines_violations-at collapse lines (suc i) j marks rest literal line later marked found)

all-empty_keys :
    (rendered : Rendered) (collapse ks : List Text)
    → ((k : Text) → has_text k collapse ≡ true → value_of k rendered ≡ some [])
    → all (λ k. has_text k collapse) ks ≡ true
    → all (is_empty_key rendered collapse) ks ≡ true
unfolding collapse_run
all-empty_keys rendered collapse [] empty h = refl
all-empty_keys rendered collapse (k ∷ ks) empty h =
    let (own, rest) = &&-true (has_text k collapse) _ h in
    rw (own, empty k own, all-empty_keys rendered collapse ks empty rest) refl

not_empty :
    (key : Text) (ks : List Text) → has_text key ks ≡ true → not (all (λ _. false) ks) ≡ true
not_empty key [] h = cc
not_empty key (k ∷ ks) h = refl

Clean-qualifies :
    (rendered : Rendered) (collapse lines : List Text) (literal : Bool) (i : ℕ) (line key : Text)
    → ((k : Text) → has_text k collapse ≡ true → value_of k rendered ≡ some [])
    → has_text key (line_keys line) ≡ true
    → Clean collapse lines literal i line
    → qualifies rendered collapse line ≡ true
unfolding collapse_run line_keys
Clean-qualifies rendered collapse lines literal i line key empty there clean =
    rw
      (
        not_empty key (holes (tokens line)) there,
        clean.alone,
        all-empty_keys rendered collapse (holes (tokens line)) empty clean.own_keys,
      )
      refl

-- No mark on the line where the front matter that the delimiter opens is honoured, if there is one.
abbrev pub UnmarkedBehind : (ℕ → Bool) → List Text → ℕ → Bool → Option Text → Type 0
UnmarkedBehind is_word lines i strict none = Unit
UnmarkedBehind is_word lines i strict (some d) =
    get_elem? (scan_literal_lines is_word lines (some d) strict) i ≡ some false

unmarked_behind :
    (is_word : ℕ → Bool) (lines : List Text) (i : ℕ) (strict : Bool) (delimiter : Option Text)
    → ((d : Text)
        → delimiter ≡ some d
        → get_elem? (scan_literal_lines is_word lines (some d) strict) i ≡ some false)
    → UnmarkedBehind is_word lines i strict delimiter
unmarked_behind is_word lines i strict none h = tt
unmarked_behind is_word lines i strict (some d) h = h d refl

-- Where a checked key stands: the engine drops the line, blanks stand around it, and no reading
-- of the template takes it for literal content.
pub record Site (is_word : ℕ → Bool) (rendered : Rendered) (collapse lines : List Text) (i : ℕ)
    (line : Text) : Type 0 where
  pub dropped : get_elem? (pass_over rendered collapse lines).keep i ≡ some false
  pub before : blank_before lines i ≡ true
  pub after : is_blank lines (some (suc i)) ≡ true
  pub prose :
      (strict : Bool) → get_elem? (scan_literal_lines is_word lines none strict) i ≡ some false
  pub behind_matter :
      (strict : Bool) → UnmarkedBehind is_word lines i strict (front_matter_delimiter lines)

-- In a source without violations, take a line with an opted-in key, where all opted-in keys
-- render empty. The sync engine's pass over these lines drops the line, the lines around it are
-- blank or missing, and neither reading of its fences marks it as literal content, with the
-- front matter honoured or not.
pub checked-Site :
    (is_word : ℕ → Bool) (rendered : Rendered) (lines collapse : List Text) (i : ℕ)
    (line key : Text)
    → check_source is_word lines collapse ≡ []
    → get_elem? lines i ≡ some line
    → has_text key collapse ≡ true
    → has_text key (line_keys line) ≡ true
    → ((k : Text) → has_text k collapse ≡ true → value_of k rendered ≡ some [])
    → Site is_word rendered collapse lines i line
unfolding check_source
checked-Site is_word rendered lines collapse i line key h found wanted there empty =
    let (_, h1) = append-nil_parts _ _ h in
    let (sites, _) = append-nil_parts _ _ h1 in
    let (literal, marked) = literal_content_lines-marks is_word lines i line found in
    let clean =
      line_violations-Clean collapse lines literal i line key
        (subst (λ n. line_violations collapse lines literal n line ≡ []) (omega arith)
          (lines_violations-at collapse lines 0 i (literal_content_lines is_word lines) lines
            literal line sites marked found))
        wanted there in
    let prose = unmarked is_word lines i line found (marked ∙ ap some clean.prose) in
    record {
      dropped =
          pass_over-drops rendered collapse lines i line found
            (Clean-qualifies rendered collapse lines literal i line key empty there clean);
      before = clean.before;
      after = clean.after;
      prose = prose.0;
      behind_matter = λ strict.
          unmarked_behind is_word lines i strict (front_matter_delimiter lines) (prose.1 strict);
    }
