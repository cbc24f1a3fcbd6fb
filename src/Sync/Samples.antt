-- ===== src/Sync/Samples.antt =====
-- The theorems on patterns, paths and rendering at concrete texts.
use codex_platform.Base.{
  String, ◌≡◌, refl, ◌↔◌, ◌≢◌, true, false, List, [], ◌∷◌, ◌++◌, some, Text, codes, All, ◌⊎◌,
  get_elem?,
}
use codex_platform.Base.Outcome.{ok, err}
use codex_platform.Base.Value.{str, Fields, end, field}
use codex_platform.Sync.Glob.{glob_to_regex, matches, exact}
use codex_platform.Sync.Glob.Documented.{subtree_pattern, any_depth_pattern, no_newline}
use codex_platform.Sync.Paths.{Segments, candidate, resolve_under, paths_run}
use codex_platform.Sync.Paths.Inside.{IsEntry, resolve_under-IsInside}
use codex_platform.Sync.Render.Tokens.{Token, char, hole, tokens, render, kept, holes, tokens_run}
use codex_platform.Sync.Render.Tokens.RoundTrip.{tokens-render}
use codex_platform.Sync.Render.Collapse.{
  Rendered, pass_over, qualifies, is_trimmed_away, collapse_run,
}
use codex_platform.Sync.Render.Collapse.Dropped.{dropped_lines}
use codex_platform.Sync.Render.Substitute.{ShowOther, rendered_values, substitute, substitute_run}
use codex_platform.Sync.Render.Substitute.Faithful.{
  substitute_verbatim, substitute_exits, Missing, Undeclared,
}

subtree_pattern_example :
    (matches exact (glob_to_regex (codes "docs" ++ codes "/**")) (codes "docs/a/b.md") ≡ true)
    ↔ ((t : Text) × (codes "docs/a/b.md" ≡ codes "docs" ++ codes "/" ++ t) × (no_newline t ≡ true))
subtree_pattern_example = subtree_pattern (codes "docs") (codes "docs/a/b.md") refl

any_depth_pattern_example :
    (matches exact (glob_to_regex (codes "**/CODEOWNERS")) (codes "a/CODEOWNERS") ≡ true) ↔ (
      (codes "a/CODEOWNERS" ≡ codes "CODEOWNERS")
      ⊎ ((a : Text) × (codes "a/CODEOWNERS" ≡ a ++ codes "/CODEOWNERS") × (no_newline a ≡ true)))
any_depth_pattern_example = any_depth_pattern (codes "CODEOWNERS") (codes "a/CODEOWNERS") refl

abbrev root : Segments
root = codes "app" ∷ []

resolved : resolve_under root (codes "docs/../src/./a.py") ≡ some (codes "src" ∷ codes "a.py" ∷ [])
unfolding paths_run
resolved = refl

resolve_under-IsInside_example :
    ((codes "src" ∷ codes "a.py" ∷ []) ≢ [])
    × All IsEntry (codes "src" ∷ codes "a.py" ∷ [])
    × (candidate root (codes "docs/../src/./a.py") ≡ some (root ++ codes "src" ∷ codes "a.py" ∷ []))
resolve_under-IsInside_example =
    resolve_under-IsInside root (codes "docs/../src/./a.py") (codes "src" ∷ codes "a.py" ∷ [])
      (record { filled = refl; no_dot = refl; no_parent = refl }, tt) resolved

abbrev greeting : List Token
greeting = char b'a' ∷ hole (codes "NAME_2") ∷ char b'.' ∷ []

tokens-render_example : tokens (render kept greeting) ≡ greeting
tokens-render_example = tokens-render greeting (refl, (refl, (refl, tt)))

abbrev show_nothing : ShowOther
show_nothing v = []

abbrev values : Fields
values = field "NAME" (str "app") end

name_rendered :
    rendered_values show_nothing values ("NAME" ∷ []) ≡ ok ((codes "NAME", codes "app") ∷ [])
unfolding substitute_run
name_rendered = refl

other-Undeclared :
    Undeclared ((codes "NAME", codes "app") ∷ []) (holes (tokens (codes "a <<OTHER>> b")))
unfolding tokens_run
other-Undeclared = (refl, tt)

substitute_verbatim_example :
    substitute show_nothing (codes "a <<OTHER>> b") values ("NAME" ∷ []) []
    ≡ ok (codes "a <<OTHER>> b")
substitute_verbatim_example =
    substitute_verbatim show_nothing (codes "a <<OTHER>> b") values ("NAME" ∷ []) _ name_rendered
      other-Undeclared

substitute_exits_example :
    ((found : List String) × (substitute show_nothing (codes "<<OTHER>>") values ("OTHER" ∷ []) []
        ≡ err found))
    ↔ Missing values ("OTHER" ∷ [])
substitute_exits_example =
    substitute_exits show_nothing (codes "<<OTHER>>") values ("OTHER" ∷ []) []

-- Three lines: the middle one renders empty and is dropped.
abbrev empty_rendered : Rendered
empty_rendered = (codes "NAME", []) ∷ []

abbrev three_lines : List Text
three_lines = codes "a" ∷ codes "<<NAME>>" ∷ codes "b" ∷ []

middle_dropped :
    get_elem? (pass_over empty_rendered (codes "NAME" ∷ []) three_lines).keep 1 ≡ some false
unfolding collapse_run tokens_run
middle_dropped = refl

dropped_lines_example :
    (is_trimmed_away (codes "<<NAME>>") ≡ true)
    ⊎ (qualifies empty_rendered (codes "NAME" ∷ []) (codes "<<NAME>>") ≡ true)
dropped_lines_example =
    dropped_lines empty_rendered (codes "NAME" ∷ []) three_lines 1 (codes "<<NAME>>") middle_dropped
      refl
