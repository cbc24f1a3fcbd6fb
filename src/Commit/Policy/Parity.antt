-- ===== src/Commit/Policy/Parity.antt =====
-- The patterns of create-signed-commit.py and those of sync-engine.py.
use mathlib.Core.Path.{ap₂}
use codex_platform.Base.{◌≡◌, refl, ap, not, ◌&&◌, List, [], ◌∷◌, map, Text, arith}
use codex_platform.Sync.Glob.{glob_to_regex as engine_glob, path_matches_any, ignore_case}
use codex_platform.Sync.Sensitive.{
  is_sensitive_write_dest as engine_write, is_sensitive_delete_dest as engine_delete, sensitive_run,
}
use codex_platform.Commit.Policy.{
  glob_to_regex, is_sensitive_write_dest, is_sensitive_delete_dest, matches_any,
  sensitive_delete_patterns, engine_surface_patterns, is_engine_surface, sensitive_write_patterns,
}

pub glob_to_regex-eq : (s : Text) → glob_to_regex s ≡ engine_glob s
unfolding glob_to_regex engine_glob
glob_to_regex-eq [] = refl
glob_to_regex-eq (c ∷ []) = ground arith
glob_to_regex-eq (c ∷ d ∷ []) = ground (arith, glob_to_regex-eq (d ∷ []))
glob_to_regex-eq (c ∷ d ∷ e ∷ s) =
    ground (arith, glob_to_regex-eq s, glob_to_regex-eq (e ∷ s), glob_to_regex-eq (d ∷ e ∷ s))

compiled-eq : (patterns : List Text) → map glob_to_regex patterns ≡ map engine_glob patterns
compiled-eq [] = refl
compiled-eq (p ∷ ps) = rw (glob_to_regex-eq p, compiled-eq ps) refl

matches_any-eq :
    (path : Text) (patterns : List Text)
    → matches_any path patterns ≡ path_matches_any ignore_case path (map engine_glob patterns)
unfolding matches_any
matches_any-eq path patterns = ap (path_matches_any ignore_case path) (compiled-eq patterns)

-- For every path, the tests for guarded writes and deletions of create-signed-commit.py agree
-- with those of the sync engine.
pub same_policy :
    (path : Text)
    → (is_sensitive_write_dest path ≡ engine_write path)
      × (is_sensitive_delete_dest path ≡ engine_delete path)
unfolding is_sensitive_write_dest is_sensitive_delete_dest is_engine_surface sensitive_run
    sensitive_write_patterns sensitive_delete_patterns engine_surface_patterns
same_policy path =
    let guarded = matches_any-eq path sensitive_delete_patterns in
    let surface = matches_any-eq path engine_surface_patterns in
    (ap₂ (λ a b. a && not b) guarded surface, ap₂ (λ a b. a && not b) guarded surface)
