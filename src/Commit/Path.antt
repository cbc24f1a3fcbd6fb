-- ===== src/Commit/Path.antt =====
-- `_canonical_manifest_path` of create-signed-commit.py, with what it asks of `posixpath.normpath`.
pub mod Settled
pub mod Canonical
use codex_platform.Base.{
  ℕ, Bool, true, false, not, ◌&&◌, ◌||◌, List, [], ◌∷◌, ◌++◌, Option, none, some, Text, codes,
  text_eq, has_prefix, elem, ◌==◌, if◌then◌else◌, split_on, join_with, drop_last, codes,
}
use codex_platform.Sync.Paths.{split_slash, join_slash}

-- `os.path.normpath` starts with no slash, one, or exactly two.
abbrev pub leading : Text → Text
leading path =
    if has_prefix (codes "/") path
    then if has_prefix (codes "//") path && not (has_prefix (codes "///") path)
      then codes "//"
      else codes "/"
    else []

abbrev pub ends_with_parent : List Text → Bool
ends_with_parent [] = false
ends_with_parent (s ∷ []) = text_eq s (codes "..")
ends_with_parent (s ∷ t ∷ ss) = ends_with_parent (t ∷ ss)

abbrev pub is_nil : List Text → Bool
is_nil [] = true
is_nil (s ∷ ss) = false

-- One component: `..` is kept at the start of a relative path and after another `..` that was.
pub normal_step : Bool → List Text → Text → List Text
normal_step rooted kept s =
    if text_eq s [] || text_eq s (codes ".")
    then kept
    else if not (text_eq s (codes "..")) || (not rooted && is_nil kept) || ends_with_parent kept
    then kept ++ s ∷ []
    else drop_last kept

pub normal : Bool → List Text → List Text → List Text
normal rooted kept [] = kept
normal rooted kept (s ∷ ss) = normal rooted (normal_step rooted kept s) ss

-- `path or "."`
pub or_dot : Text → Text
or_dot [] = codes "."
or_dot (c ∷ s) = c ∷ s

pub normpath : Text → Text
normpath path =
    or_dot (leading path ++ join_slash (normal (has_prefix (codes "/") path) [] (split_slash path)))

-- `str.isprintable` is a parameter.
pub is_unsafe : (Text → Bool) → Text → Text → Bool
is_unsafe is_printable path normalized =
    text_eq path []
    || not (is_printable path)
    || elem b'\\' path
    || has_prefix (codes "/") path
    || text_eq normalized (codes ".")
    || text_eq normalized (codes "..")
    || has_prefix (codes "../") normalized
    || not (text_eq normalized path)

pub canonical_manifest_path : (Text → Bool) → Text → Option Text
canonical_manifest_path is_printable path =
    if is_unsafe is_printable path (normpath path) then none else some (normpath path)

-- Names what a run of `canonical_manifest_path` opens.
unfoldable pub path_run : Unit {0}
unfolding normal_step normal or_dot normpath is_unsafe canonical_manifest_path split_on join_with
    drop_last
path_run = tt
