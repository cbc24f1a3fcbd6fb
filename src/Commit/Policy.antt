-- ===== src/Commit/Policy.antt =====
-- The destination patterns of create-signed-commit.py: its own `glob_to_regex`, its three tuples
-- and the tests of destinations. The pieces of a pattern and their match are those of `Sync.Glob`.
pub mod Parity
use codex_platform.Base.{
  if◌then◌else◌, ℕ, Bool, true, false, not, ◌&&◌, List, [], ◌∷◌, map, Text, codes, ◌==◌,
}
use codex_platform.Sync.Glob.{
  Piece, dirs, rest, run, one, lit, ignore_case, path_matches_any, matches,
}

-- The branches for a character that is not the first of two stars.
abbrev pub char_piece : ℕ → Piece
char_piece c = if c == b'*' then run else if c == b'?' then one else lit c

-- The loop at an index, on the characters that are left.
pub glob_to_regex : Text → List Piece
glob_to_regex [] = []
glob_to_regex (c ∷ []) = char_piece c ∷ []
glob_to_regex (c ∷ d ∷ []) = elim (c == b'*' && d == b'*') [
  | true ↦ rest ∷ []
  | false ↦ char_piece c ∷ glob_to_regex (d ∷ [])
]
glob_to_regex (c ∷ d ∷ e ∷ s) = elim (c == b'*' && d == b'*') [
  | true ↦ elim (e == b'/') [ true ↦ dirs ∷ glob_to_regex s | false ↦ rest ∷ glob_to_regex (e ∷ s) ]
  | false ↦ char_piece c ∷ glob_to_regex (d ∷ e ∷ s)
]

pub sensitive_delete_patterns : List Text
sensitive_delete_patterns =
    codes ".github/workflows/**"
    ∷ codes ".github/actions/**"
    ∷ codes "**/CODEOWNERS"
    ∷ codes "**/package.json"
    ∷ codes "**/pnpm-lock.yaml"
    ∷ codes "**/prisma/schema.prisma"
    ∷ codes "**/Dockerfile"
    ∷ codes "**/Dockerfile.*"
    ∷ []

pub sensitive_write_patterns : List Text
sensitive_write_patterns = sensitive_delete_patterns

pub engine_surface_patterns : List Text
engine_surface_patterns = codes ".claude/**" ∷ codes ".codex/**" ∷ codes ".agents/**" ∷ []

-- `_matches_any` with the patterns compiled by `_compile_case_insensitive`.
pub matches_any : Text → List Text → Bool
matches_any path patterns = path_matches_any ignore_case path (map glob_to_regex patterns)

pub is_engine_surface : Text → Bool
is_engine_surface path = matches_any path engine_surface_patterns

pub is_sensitive_write_dest : Text → Bool
is_sensitive_write_dest path =
    matches_any path sensitive_write_patterns && not (is_engine_surface path)

pub is_sensitive_delete_dest : Text → Bool
is_sensitive_delete_dest path =
    matches_any path sensitive_delete_patterns && not (is_engine_surface path)

-- Names what a run of these tests opens.
unfoldable pub policy_run : Unit {0}
unfolding glob_to_regex sensitive_delete_patterns sensitive_write_patterns engine_surface_patterns
    matches_any is_engine_surface is_sensitive_write_dest is_sensitive_delete_dest matches
policy_run = tt
