-- ===== src/Sync/Engine/Plan.antt =====
-- What one round of the loop of `main` decides, from the entry and the disk, before it changes
-- anything: `plan` has every guard of the round, and `Run` carries the plan out.
pub mod Granted
use codex_platform.Base.{
  ℕ, String, Bool, true, false, not, ◌&&◌, ◌||◌, List, [], ◌∷◌, ◌++◌, Option, none, some, Text,
  codes, text_eq, if◌then◌else◌,
}
use codex_platform.Base.Outcome.{Outcome, ok, err, reject, ◌>>=◌, ◌>>◌}
use codex_platform.Base.Value.{Value, elem_str}
use codex_platform.Sync.Glob.{Piece, exact, path_matches_any}
use codex_platform.Sync.Sensitive.{is_sensitive_write_dest, is_sensitive_delete_dest}
use codex_platform.Sync.Paths.{Segments, same_path, join_slash, resolve_under}
use codex_platform.Sync.Host.{Host}
use codex_platform.Sync.Render.Collapse.{has_text}
use codex_platform.Sync.Render.Substitute.{substitute}
use codex_platform.Sync.Fields.{
  Refusal, escapes_root, not_canonical, not_allowed, sensitive_delete, is_directory,
  config_destination, sensitive_write, malformed_entry, source_escapes, source_missing,
  missing_placeholders,
}
use codex_platform.Sync.Engine.Target.{Target, parse_target}
use codex_platform.Sync.Engine.Settings.{Args, Settings}

pub data Plan : Type 0 where
  skip : Plan
  remove : (rel : Segments) (existed : Bool) → Plan
  preserve : Plan
  write : (rel : Segments) (content : Text) (mode : Option ℕ) (sensitive : Bool) → Plan

-- A destination that the consumer's allowlist lets through.
pub is_allowed : Settings → Text → Bool
is_allowed settings dest = elim settings.allowed [
  | none ↦ true
  | some patterns ↦ path_matches_any exact dest patterns
]

abbrev pub source_is_skipped : List String → Option String → Bool
source_is_skipped skips none = false
source_is_skipped skips (some s) = elem_str s skips

-- `parent / rel` for the segments below the parent.
abbrev pub below : Segments → Segments → Segments
below parent rel = parent ++ rel

canonical_of : Text → Option Segments → Outcome Refusal Segments
canonical_of dest none = err escapes_root
canonical_of dest (some rel) = if text_eq (join_slash rel) dest then ok rel else err not_canonical

canonical_dest : Segments → Text → Outcome Refusal Segments
canonical_dest root dest = canonical_of dest (resolve_under root dest)

source_path : Segments → Option String → Outcome Refusal Segments
source_path upstream none = err malformed_entry
source_path upstream (some s) = elim (resolve_under upstream (codes s)) [
  | none ↦ err source_escapes
  | some rel ↦ ok (below upstream rel)
]

rendered : Outcome (List String) Text → Outcome Refusal Text
rendered (ok t) = ok t
rendered (err missing) = err missing_placeholders

module _ (host : Host) where
  open host use {State, is_file, is_dir, is_symlink, exists, resolve, read}

  abbrev pub is_real_dir : State → Segments → Bool
  is_real_dir disk path = is_dir disk path && not (is_symlink disk path)

  abbrev pub is_there : State → Segments → Bool
  is_there disk path = exists disk path || is_symlink disk path

  plan_delete : State → Segments → Text → Segments → Outcome Refusal Plan
  plan_delete disk root dest rel = do
    reject (is_sensitive_delete_dest dest) sensitive_delete
    reject (is_real_dir disk (below root rel)) is_directory
    ok (remove rel (is_there disk (below root rel)))

  -- The guards of a write, in the source's order, and the text to write.
  plan_write : Settings → State → Target → Text → Segments → Outcome Refusal Plan
  plan_write settings disk target dest rel = do
    let path = below settings.args.consumer rel
    reject (same_path (resolve disk path) settings.args.config_path) config_destination
    reject (is_sensitive_write_dest dest && not (has_text dest settings.consent)) sensitive_write
    source ← source_path settings.args.upstream target.source
    reject (not (is_file disk source)) source_missing
    content ← rendered (
        substitute settings.args.show (read disk source) settings.values target.substitutions
          target.collapse)
    ok (write rel content target.mode (is_sensitive_write_dest dest))

  -- `create_if_missing` leaves what is there alone.
  plan_copy : Settings → State → Target → Text → Segments → Outcome Refusal Plan
  plan_copy settings disk target dest rel = do
    let path = below settings.args.consumer rel
    reject (target.create_if_missing && is_real_dir disk path) is_directory
    let wanted = plan_write settings disk target dest rel
    if target.create_if_missing && is_there disk path then ok preserve else wanted

  plan_dest : Settings → State → Target → Outcome Refusal Plan
  plan_dest settings disk target = do
    let dest = codes target.destination
    rel ← canonical_dest settings.args.consumer dest
    reject (not (is_allowed settings dest)) not_allowed
    if target.delete
        then plan_delete disk settings.args.consumer dest rel
        else plan_copy settings disk target dest rel

  plan_target : Settings → State → Target → Outcome Refusal Plan
  plan_target settings disk target =
      if source_is_skipped settings.skip target.source || elem_str target.destination settings.skip
      then ok skip
      else plan_dest settings disk target

  pub plan : Settings → State → Value → Outcome Refusal Plan
  plan settings disk v = do
    target ← parse_target settings.args.printable v
    plan_target settings disk target

-- Names what a plan opens.
unfoldable pub plan_run : Unit {0}
unfolding is_allowed canonical_of canonical_dest source_path rendered plan_delete plan_write
    plan_copy plan_dest plan_target plan
plan_run = tt
