-- ===== src/Sync/Sensitive.antt =====
-- The destinations that sync-engine.py guards, and those that it excepts.
use codex_platform.Base.{Bool, not, ◌&&◌, List, [], ◌∷◌, map, Text, codes}
use codex_platform.Sync.Glob.{Piece, glob_to_regex, ignore_case, path_matches_any}

abbrev sensitive_delete_patterns : List Text
sensitive_delete_patterns =
    codes ".github/workflows/**"
    ∷ codes ".github/actions/**"
    ∷ codes "**/CODEOWNERS"
    ∷ codes "**/package.json"
    ∷ codes "**/pnpm-lock.yaml"
    ∷ codes "**/prisma/schema.prisma"
    ∷ codes "**/Dockerfile"
    ∷ codes "**/Dockerfile.*"
    ∷ []

-- The same tuple under a second name.
abbrev sensitive_write_patterns : List Text
sensitive_write_patterns = sensitive_delete_patterns

abbrev engine_surface_patterns : List Text
engine_surface_patterns = codes ".claude/**" ∷ codes ".codex/**" ∷ codes ".agents/**" ∷ []

-- `_compile_case_insensitive` changes how characters compare: see `ignore_case`.
compiled : List Text → List (List Piece)
compiled patterns = map glob_to_regex patterns

pub matches_sensitive_write : Text → Bool
matches_sensitive_write path = path_matches_any ignore_case path (compiled sensitive_write_patterns)

pub is_engine_surface : Text → Bool
is_engine_surface path = path_matches_any ignore_case path (compiled engine_surface_patterns)

pub is_sensitive_write_dest : Text → Bool
is_sensitive_write_dest path = matches_sensitive_write path && not (is_engine_surface path)

pub is_sensitive_delete_dest : Text → Bool
is_sensitive_delete_dest path =
    path_matches_any ignore_case path (compiled sensitive_delete_patterns)
    && not (is_engine_surface path)

-- Names what a run of these tests opens.
unfoldable pub sensitive_run : Unit {0}
unfolding compiled matches_sensitive_write is_engine_surface is_sensitive_write_dest
    is_sensitive_delete_dest glob_to_regex
sensitive_run = tt
