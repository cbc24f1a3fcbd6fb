-- ===== src/Sync/Paths.antt =====
-- `resolve_under` of sync-engine.py, with the lexical normalisation that it asks of `os.path`.
-- An absolute path is the list of its segments below the root.
pub mod Inside
use codex_platform.Base.{
  ℕ, Bool, true, false, not, ◌&&◌, ◌||◌, List, [], ◌∷◌, ◌++◌, Option, none, some, Text, codes,
  text_eq, has_prefix, ◌==◌, if◌then◌else◌, split_on, join_with, drop_last,
}

abbrev pub Segments : Type 0
Segments = List Text

-- `text.split("/")`, and `"/".join(segments)`, which is what `as_posix` gives for a relative path.
abbrev pub split_slash : Text → List Text
split_slash s = split_on b'/' s

abbrev pub join_slash : List Text → Text
join_slash ss = join_with b'/' ss

-- Equality of paths.
pub same_path : Segments → Segments → Bool
same_path [] [] = true
same_path (s ∷ ss) (t ∷ ts) = text_eq s t && same_path ss ts
same_path _ _ = false

-- One segment of `os.path.normpath` on an absolute path: `..` at the root stays at the root.
pub normal_step : Segments → Text → Segments
normal_step path s =
    if text_eq s [] || text_eq s (codes ".")
    then path
    else if text_eq s (codes "..")
    then drop_last path
    else path ++ s ∷ []

pub normal : Segments → List Text → Segments
normal path [] = path
normal path (s ∷ ss) = normal (normal_step path s) ss

-- `os.path.normpath(parent / child)`. An absolute child takes the parent's place; exactly two
-- slashes at its start are another root, which no path here lies under.
abbrev is_foreign : Text → Bool
is_foreign child = has_prefix (codes "//") child && not (has_prefix (codes "///") child)

pub candidate : Segments → Text → Option Segments
candidate parent child =
    if is_foreign child
    then none
    else some (normal (if has_prefix (codes "/") child then [] else parent) (split_slash child))

-- `candidate.relative_to(parent)`; `none` is the ValueError.
pub relative_to : Segments → Segments → Option Segments
relative_to path [] = some path
relative_to [] (p ∷ ps) = none
relative_to (s ∷ ss) (p ∷ ps) = if text_eq s p then relative_to ss ps else none

-- The candidate may not be the parent itself.
proper : Option Segments → Option Segments
proper (some (s ∷ ss)) = some (s ∷ ss)
proper _ = none

-- The segments below the parent; the resolved path is the parent's followed by these.
pub resolve_under : Segments → Text → Option Segments
resolve_under parent child = elim (candidate parent child) [
  | none ↦ none
  | some path ↦ proper (relative_to path parent)
]

-- Names what a run of `resolve_under` opens.
unfoldable pub paths_run : Unit {0}
unfolding same_path resolve_under proper relative_to candidate normal normal_step drop_last
    join_with split_on
paths_run = tt
