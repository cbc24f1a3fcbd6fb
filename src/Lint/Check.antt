-- ===== src/Lint/Check.antt =====
-- `check_source` of lint-collapse-sites.py, on the lines of a source.
pub mod Sound
use codex_platform.Base.{
  ℕ, zero, suc, Bool, true, false, not, ◌&&◌, ◌||◌, List, [], ◌∷◌, ◌++◌, Option, none, some, Text,
  codes, text_eq, is_digit, leb, ltb, ◌==◌, if◌then◌else◌, all,
}
use codex_platform.Sync.Render.Tokens.{tokens, render, holes}
use codex_platform.Sync.Render.Collapse.{has_text, is_trimmed_away, is_blank}
use codex_platform.Lint.Scan.{literal_content_lines}

pub data Reason : Type 0 where
  literal_content foreign_placeholder other_text no_blank_before no_blank_after : Reason

pub data Violation : Type 0 where
  bad_key : (key : Text) → Violation
  bad_site : (index : ℕ) (key : Text) (reason : Reason) → Violation
  no_occurrence : (key : Text) → Violation

-- PLACEHOLDER_NAME_RE.fullmatch
abbrev is_upper : ℕ → Bool
is_upper c = leb b'A' c && leb c b'Z'

pub is_key_name : Text → Bool
is_key_name [] = false
is_key_name (c ∷ s) = is_upper c && all (λ d. is_upper d || is_digit d || d == b'_') s

-- `a < b` on texts.
pub comes_before : Text → Text → Bool
comes_before s [] = false
comes_before [] (d ∷ t) = true
comes_before (c ∷ s) (d ∷ t) = let rest = comes_before s t in if c == d then rest else ltb c d

-- `sorted(set(keys))`
pub insert_key : Text → List Text → List Text
insert_key key [] = key ∷ []
insert_key key (k ∷ ks) =
    let rest = insert_key key ks in
    if text_eq k key then k ∷ ks else if comes_before key k then key ∷ k ∷ ks else k ∷ rest

pub sorted_set : List Text → List Text
sorted_set [] = []
sorted_set (k ∷ ks) = insert_key k (sorted_set ks)

-- The keys of the first list that are, or are not, in the second.
pub among : List Text → List Text → List Text
among [] keys = []
among (k ∷ ks) keys = let rest = among ks keys in if has_text k keys then k ∷ rest else rest

pub not_among : List Text → List Text → List Text
not_among [] keys = []
not_among (k ∷ ks) keys = let rest = not_among ks keys in if has_text k keys then rest else k ∷ rest

pub line_keys : Text → List Text
line_keys line = holes (tokens line)

-- A line that is before the first or behind the last is no obstacle.
pub blank_before : List Text → ℕ → Bool
blank_before lines zero = true
blank_before lines (suc i) = is_blank lines (some i)

pub site_reason : List Text → List Text → Bool → ℕ → Text → Option Reason
site_reason collapse lines literal i line =
    if literal
    then some literal_content
    else if not (all (λ k. has_text k collapse) (line_keys line))
    then some foreign_placeholder
    else if not (is_trimmed_away (render (λ _. []) (tokens line)))
    then some other_text
    else if not (blank_before lines i)
    then some no_blank_before
    else if not (is_blank lines (some (suc i)))
    then some no_blank_after
    else none

pub at_site : ℕ → Option Reason → List Text → List Violation
at_site i none keys = []
at_site i (some reason) [] = []
at_site i (some reason) (k ∷ ks) = bad_site i k reason ∷ at_site i (some reason) ks

pub line_violations : List Text → List Text → Bool → ℕ → Text → List Violation
line_violations collapse lines literal i line =
    at_site i (site_reason collapse lines literal i line)
      (sorted_set (among (line_keys line) collapse))

pub lines_violations : List Text → List Text → ℕ → List Bool → List Text → List Violation
lines_violations collapse lines i (literal ∷ marks) (line ∷ rest) =
    line_violations collapse lines literal i line
    ++ lines_violations collapse lines (suc i) marks rest
lines_violations collapse lines i _ _ = []

pub bad_keys : List Text → List Violation
bad_keys [] = []
bad_keys (k ∷ ks) = let rest = bad_keys ks in if is_key_name k then rest else bad_key k ∷ rest

pub missing_keys : List Text → List Violation
missing_keys [] = []
missing_keys (k ∷ ks) =
    let rest = missing_keys ks in if is_key_name k then no_occurrence k ∷ rest else rest

pub source_keys : List Text → List Text
source_keys [] = []
source_keys (line ∷ lines) = line_keys line ++ source_keys lines

pub check_source : (ℕ → Bool) → List Text → List Text → List Violation
check_source is_word lines collapse =
    bad_keys (sorted_set collapse)
    ++ (lines_violations collapse lines 0 (literal_content_lines is_word lines) lines
        ++ missing_keys (sorted_set (not_among collapse (source_keys lines))))

-- Names what a run of `check_source` opens.
unfoldable pub check_run : Unit {0}
unfolding is_key_name comes_before insert_key sorted_set among not_among line_keys blank_before
    site_reason at_site line_violations lines_violations bad_keys missing_keys source_keys
    check_source
check_run = tt
