-- ===== src/Sync/Render/Substitute.antt =====
-- `substitute` of sync-engine.py, less its two warnings.
pub mod Faithful
use codex_platform.Base.{
  ℕ, String, Bool, true, false, not, ◌&&◌, ◌||◌, List, [], ◌∷◌, ◌++◌, Option, none, some, Text,
  codes, text_eq, ◌==◌, if◌then◌else◌, all, any, map,
}
use codex_platform.Base.Outcome.{Outcome, ok, err, ◌>>=◌}
use codex_platform.Base.Value.{Value, null, str, Fields, lookup}
use codex_platform.Sync.Render.Tokens.{Token, tokens, render, kept}
use codex_platform.Sync.Render.Collapse.{Rendered, value_of, drop_empty_placeholder_lines}

-- `text.rstrip("\r\n")`
pub strip_newlines : Text → Text
strip_newlines [] = []
strip_newlines (c ∷ s) =
    let rest = strip_newlines s in
    if (c == b'\r' || c == b'\n') && text_eq rest [] then [] else c ∷ rest

-- Python's `str()` of a value that is neither text nor None.
abbrev pub ShowOther : Type 0
ShowOther = Value → Text

rendered_value : ShowOther → Value → Text
rendered_value show null = []
rendered_value show (str s) = strip_newlines (codes s)
rendered_value show v = strip_newlines (show v)

add_key :
    ShowOther
    → String
    → Option Value
    → Outcome (List String) Rendered
    → Outcome (List String) Rendered
add_key show key none (ok vs) = err (key ∷ [])
add_key show key none (err missing) = err (key ∷ missing)
add_key show key (some v) (ok vs) = ok ((codes key, rendered_value show v) ∷ vs)
add_key show key (some v) (err missing) = err missing

-- The rendered value of each declared key, or the keys that the config lacks.
pub rendered_values : ShowOther → Fields → List String → Outcome (List String) Rendered
rendered_values show values [] = ok []
rendered_values show values (key ∷ keys) =
    add_key show key (lookup key values) (rendered_values show values keys)

-- `replace(match)`: a declared key's value, or the placeholder itself.
pub replacement : Rendered → Text → Text
replacement rendered key = elim (value_of key rendered) [ none ↦ kept key | some v ↦ v ]

-- The text, or the keys for which the source exits.
unfoldable pub substitute :
    ShowOther → Text → Fields → List String → List String → Outcome (List String) Text
substitute show text values target_keys collapse = do
  rendered ← rendered_values show values target_keys
  ok (
      render (replacement rendered)
        (tokens (drop_empty_placeholder_lines text rendered (map codes collapse))))

-- Names what a run of `substitute` opens.
unfoldable pub substitute_run : Unit {0}
unfolding substitute replacement rendered_values add_key rendered_value strip_newlines
substitute_run = tt
