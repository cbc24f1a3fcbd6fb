-- ===== src/Sync/Render/Collapse.antt =====
-- `drop_empty_placeholder_lines` of sync-engine.py, less the warning on keys that never qualified.
pub mod Dropped
pub mod Drops
use codex_platform.Base.{
  ℕ, zero, suc, ◌+◌, Bool, true, false, not, ◌&&◌, ◌||◌, List, [], ◌∷◌, ◌++◌, Option, none, some,
  Text, text_eq, elem, codes, ◌==◌, if◌then◌else◌, length, get_elem?, set, any, all, ltb, split_on,
  join_with, drop_last, ends_with, map,
}
use codex_platform.Sync.Render.Tokens.{Token, tokens, render, holes}

-- The rendered value of each declared key.
abbrev pub Rendered : Type 0
Rendered = List (Text × Text)

abbrev pub value_of : Text → Rendered → Option Text
value_of key [] = none
value_of key ((k, v) ∷ vs) = if text_eq k key then some v else value_of key vs

abbrev pub has_text : Text → List Text → Bool
has_text t ts = any (λ u. text_eq u t) ts

-- `not line.strip(" \t\r")`
abbrev pub is_trimmed_away : Text → Bool
is_trimmed_away s = all (λ c. c == b' ' || c == b'\t' || c == b'\r') s

-- `is_blank(index)`; `none` is the index -1, and an index past the end is blank too.
pub is_blank : List Text → Option ℕ → Bool
is_blank lines none = true
is_blank lines (some i) = elim (get_elem? lines i) [
  | none ↦ true
  | some line ↦ is_trimmed_away line
]

-- `previous_kept(index)`: the last index below that is still kept; `none` is -1.
pub previous_kept : List Bool → ℕ → Option ℕ
previous_kept keep zero = none
previous_kept keep (suc probe) =
    let earlier = previous_kept keep probe in
    elim (get_elem? keep probe) [ some true ↦ some probe | _ ↦ earlier ]

-- A key that is opted in and renders empty. `rendered_values.get(key) != ""` for other keys.
pub is_empty_key : Rendered → List Text → Text → Bool
is_empty_key rendered collapse key =
    has_text key collapse && elim (value_of key rendered) [ none ↦ false | some v ↦ text_eq v [] ]

-- The line holds placeholders that all render empty, and nothing but blanks beside them.
pub qualifies : Rendered → List Text → Text → Bool
qualifies rendered collapse line =
    let ts = tokens line in
    not (all (λ _. false) (holes ts))
    && is_trimmed_away (render (λ _. []) ts)
    && all (is_empty_key rendered collapse) (holes ts)

-- The variables of the loop.
pub record Pass : Type 0 where
  pub keep : List Bool
  pub collapsed : List Text

-- The separator that goes with the dropped line `i`, if keeping it would leave a run of blanks.
pub drop_separator : List Text → ℕ → List Bool → List Bool
drop_separator lines i keep =
    let previous = previous_kept keep i in
    if is_blank lines previous && is_blank lines (some (suc i))
    then (if ltb (suc i) (length lines)
        then set keep (suc i) false
        else elim previous [ none ↦ keep | some p ↦ set keep p false ])
    else keep

-- One round of the loop.
pub visit : Rendered → List Text → List Text → ℕ → Text → Pass → Pass
visit rendered collapse lines i line pass =
    if qualifies rendered collapse line
    then record {
      keep = drop_separator lines i (set pass.keep i false);
      collapsed = pass.collapsed ++ holes (tokens line);
    }
    else pass

-- `for i, line in enumerate(lines)`, from an index on.
pub visit_from : Rendered → List Text → List Text → ℕ → List Text → Pass → Pass
visit_from rendered collapse lines i [] pass = pass
visit_from rendered collapse lines i (line ∷ rest) pass =
    visit_from rendered collapse lines (suc i) rest (visit rendered collapse lines i line pass)

abbrev pub all_kept : List Text → List Bool
all_kept lines = map (λ _. true) lines

pub kept_lines : List Text → List Bool → List Text
kept_lines (line ∷ lines) (k ∷ keep) =
    let rest = kept_lines lines keep in if k then line ∷ rest else rest
kept_lines _ _ = []

-- `keep[-1]`
last_kept : List Bool → Bool
last_kept [] = true
last_kept (k ∷ []) = k
last_kept (k ∷ l ∷ keep) = last_kept (l ∷ keep)

-- What becomes of the kept lines: the final newline is put back, and a carriage return that lost its
-- line feed is dropped.
pub finish : Bool → List Bool → Text → Text
finish trailing keep [] = []
finish true keep (c ∷ out) = (c ∷ out) ++ b'\n' ∷ []
finish false keep (c ∷ out) =
    if ends_with b'\r' (c ∷ out) && not (last_kept keep) then drop_last (c ∷ out) else c ∷ out

pub lines_of : Text → List Text
lines_of text = split_on b'\n' (if ends_with b'\n' text then drop_last text else text)

pub pass_over : Rendered → List Text → List Text → Pass
pass_over rendered collapse lines =
    visit_from rendered collapse lines 0 lines (record { keep = all_kept lines; collapsed = [] })

after_pass : Text → List Text → List Bool → Text
after_pass text lines keep =
    if all (λ k. k) keep
    then text
    else finish (ends_with b'\n' text) keep (join_with b'\n' (kept_lines lines keep))

unfoldable pub drop_empty_placeholder_lines : Text → Rendered → List Text → Text
unfolding after_pass
drop_empty_placeholder_lines text rendered [] = text
drop_empty_placeholder_lines text rendered (key ∷ keys) =
    after_pass text (lines_of text) (pass_over rendered (key ∷ keys) (lines_of text)).keep

-- Names what a run of `drop_empty_placeholder_lines` opens.
unfoldable pub collapse_run : Unit {0}
unfolding drop_empty_placeholder_lines after_pass pass_over lines_of finish last_kept kept_lines
    visit_from visit drop_separator qualifies is_empty_key previous_kept is_blank
collapse_run = tt
