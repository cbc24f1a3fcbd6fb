-- ===== src/Sync/Host.antt =====
-- The file system as sync-engine.py uses it. It is not the program's code: its state and its
-- operations are a parameter of the engine. `write_utf8`, `write_if_changed` and
-- `prune_empty_parents` are the program's, over these operations.
use codex_platform.Base.{
  ℕ, Bool, true, false, ◌&&◌, List, [], ◌∷◌, ◌++◌, Option, none, some, Text, text_eq, ◌==◌,
  if◌then◌else◌, drop_last,
}
use codex_platform.Sync.Paths.{Segments, relative_to}

-- Paths are absolute. `mode` is `stat.S_IMODE(path.stat().st_mode)`, `replace_file` is a temporary
-- sibling with its bits set (0o600 where none are given), moved into place, `rmdir` gives nothing
-- where the directory is not removed.
pub record Host : Type 1 where
  pub State : Type 0
  pub is_file : State → Segments → Bool
  pub is_dir : State → Segments → Bool
  pub is_symlink : State → Segments → Bool
  pub exists : State → Segments → Bool
  pub resolve : State → Segments → Segments
  pub read : State → Segments → Text
  pub mode : State → Segments → ℕ
  pub make_dirs : Segments → State → State
  pub replace_file : Segments → Text → Option ℕ → State → State
  pub chmod : Segments → ℕ → State → State
  pub unlink : Segments → State → State
  pub rmdir : Segments → State → Option State

-- The directories that lead from the root to `root / rel`, the lowest first.
dirs_below : Segments → List Text → List Segments
dirs_below root [] = []
dirs_below root (s ∷ rest) = dirs_below (root ++ s ∷ []) rest ++ (root ++ s ∷ []) ∷ []

module _ (host : Host) where
  open host use {
    State, is_file, is_dir, is_symlink, exists, resolve, read, mode, make_dirs, replace_file, chmod,
    unlink, rmdir,
  }

  -- A leaf link is followed, so that the link itself stays.
  pub write_utf8 : State → Segments → Text → Option ℕ → State
  write_utf8 disk path content bits =
      replace_file (if is_symlink disk path then resolve disk path else path) content bits disk

  -- The bits of a changed file: the manifest's, those it had, or 0o644.
  desired_mode : State → Segments → Option ℕ → Bool → ℕ
  desired_mode disk path (some bits) existed = bits
  desired_mode disk path none true = mode disk path
  desired_mode disk path none false = 0o644

  same_text : Bool → Text → Text → Bool
  same_text existed old new = existed && text_eq old new

  -- The chmod at the end, for a file whose bits are still others.
  settle_mode : Segments → Option ℕ → State × Bool → State × Bool
  settle_mode path none (disk, changed) = (disk, changed)
  settle_mode path (some bits) (disk, changed) =
      if mode disk path == bits then (disk, changed) else (chmod path bits disk, true)

  pub write_if_changed : State → Segments → Text → Option ℕ → State × Bool
  write_if_changed disk path content bits =
      let made = make_dirs (drop_last path) disk in
      let existed = is_file made path in
      if same_text existed (read made path) content
      then settle_mode path bits (made, false)
      else settle_mode path bits
          (write_utf8 made path content (some (desired_mode made path bits existed)), true)

  -- The walk over the directories stops at the first that is not removed.
  prune_from : List Segments → State → State
  prune_from [] disk = disk
  prune_from (dir ∷ dirs) disk = elim (rmdir dir disk) [
    | none ↦ disk
    | some after ↦ prune_from dirs after
  ]

  -- The directories from a path up to the root's own child; none where the path is not below the
  -- root.
  walk : Segments → Option Segments → List Segments
  walk root none = []
  walk root (some rel) = dirs_below root rel

  -- The parent of `root / rel` and those above it, all resolved.
  pub prune_empty_parents : Segments → List Text → State → State
  prune_empty_parents root rel disk =
      let top = resolve disk root in
      prune_from (walk top (relative_to (resolve disk (drop_last (root ++ rel))) top)) disk

-- Names what a change of the disk opens.
unfoldable pub host_run : Unit {0}
unfolding write_utf8 desired_mode same_text settle_mode write_if_changed prune_from dirs_below walk
    prune_empty_parents
host_run = tt
