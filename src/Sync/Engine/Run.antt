-- ===== src/Sync/Engine/Run.antt =====
-- The two passes before the loop, the loop, and `main` of sync-engine.py.
pub mod Ends
pub mod Safety
use codex_platform.Base.{
  ℕ, suc, ◌+◌, String, Bool, true, false, not, ◌&&◌, ◌||◌, List, [], ◌∷◌, ◌++◌, Option, none, some,
  Text, codes, text_eq, ◌==◌, str_eq, if◌then◌else◌,
}
use codex_platform.Base.Outcome.{Outcome, ok, err, reject, ◌>>=◌, ◌>>◌}
use codex_platform.Base.Value.{Value, null, bool, str, obj, Fields, lookup, elem_str}
use codex_platform.Sync.Sensitive.{is_sensitive_write_dest}
use codex_platform.Sync.Paths.{Segments, same_path, join_slash, resolve_under}
use codex_platform.Sync.Host.{Host, write_if_changed, prune_empty_parents}
use codex_platform.Sync.Render.Collapse.{has_text}
use codex_platform.Sync.Fields.{Refusal, config_destination, sensitive_write, as_canonical, is_some}
use codex_platform.Sync.Engine.Settings.{Args, Settings, read_documents}
use codex_platform.Sync.Engine.Plan.{
  Plan, skip, remove, preserve, write, is_allowed, below, is_real_dir, is_there, plan,
}

-- A destination that is text and not empty, of an entry that is no deletion and whose `delete` is
-- no malformed flag. The pre-passes leave every other entry to the loop.
write_dest : Option Value → Option Value → Option String
write_dest (some (str s)) none = if str_eq s "" then none else some s
write_dest (some (str s)) (some null) = if str_eq s "" then none else some s
write_dest (some (str s)) (some (bool false)) = if str_eq s "" then none else some s
write_dest _ _ = none

pub gated_dest : Value → Option String
gated_dest (obj fs) = write_dest (lookup "destination" fs) (lookup "delete" fs)
gated_dest _ = none

-- `isinstance(source_rel, str) and source_rel in skip`
source_in : List String → Value → Bool
source_in skips (obj fs) = elim (lookup "source" fs) [ some (str s) ↦ elem_str s skips | _ ↦ false ]
source_in skips _ = false

creates_if_missing : Value → Bool
creates_if_missing (obj fs) = elim (lookup "create_if_missing" fs) [ some (bool b) ↦ b | _ ↦ false ]
creates_if_missing _ = false

-- The variables of the loop.
pub record Counts : Type 0 where
  pub written : ℕ
  pub removed : ℕ
  pub skipped : ℕ
  pub unchanged : ℕ
  pub sensitive : ℕ

abbrev pub zero_counts : Counts
zero_counts = record { written = 0; removed = 0; skipped = 0; unchanged = 0; sensitive = 0 }

module _ (host : Host) where
  open host use {State, is_file, resolve, read, mode, unlink}

  -- `config_write_targets`: the destinations that are the consumer's own config.
  config_offence : Settings → State → Option String → Option Segments → Bool
  config_offence settings disk none rel = false
  config_offence settings disk (some s) none = false
  config_offence settings disk (some s) (some rel) =
      same_path (resolve disk (below settings.args.consumer rel)) settings.args.config_path

  pub writes_config : Settings → State → Value → Bool
  writes_config settings disk v = elim (gated_dest v) [
    | none ↦ false
    | some s ↦
        config_offence settings disk (some s) (resolve_under settings.args.consumer (codes s))
  ]

  pub config_write_targets : Settings → State → List Value → List Value
  config_write_targets settings disk [] = []
  config_write_targets settings disk (v ∷ vs) =
      let rest = config_write_targets settings disk vs in
      if writes_config settings disk v then v ∷ rest else rest

  -- One target of `unconsented_sensitive_writes`: it would write a sensitive path that the consumer
  -- has not named.
  lacks_consent_at : Settings → State → Value → Text → Segments → Bool
  lacks_consent_at settings disk v dest rel =
      let path = below settings.args.consumer rel in
      is_allowed settings dest
      && is_sensitive_write_dest dest
      && not (creates_if_missing v && not (is_real_dir host disk path) && is_there host disk path)
      && not (has_text dest settings.consent)

  lacks_consent_to : Settings → State → Value → String → Bool
  lacks_consent_to settings disk v s =
      not (source_in settings.skip v || elem_str s settings.skip)
      && elim (as_canonical (codes s) (resolve_under settings.args.consumer (codes s))) [
        | none ↦ false
        | some rel ↦ lacks_consent_at settings disk v (codes s) rel
      ]

  pub lacks_consent : Settings → State → Value → Bool
  lacks_consent settings disk v = elim (gated_dest v) [
    | none ↦ false
    | some s ↦ lacks_consent_to settings disk v s
  ]

  pub unconsented_sensitive_writes : Settings → State → List Value → List Value
  unconsented_sensitive_writes settings disk [] = []
  unconsented_sensitive_writes settings disk (v ∷ vs) =
      let rest = unconsented_sensitive_writes settings disk vs in
      if lacks_consent settings disk v then v ∷ rest else rest

  -- What a dry run finds different: the text, or the bits of a file that is there.
  pub differs : State → Segments → Text → Option ℕ → Bool
  differs disk path content bits =
      not (is_file disk path && text_eq (read disk path) content)
      || elim bits [ none ↦ false | some b ↦ is_file disk path && not (mode disk path == b) ]

  pub count_write : Bool → Bool → Counts → Counts
  count_write true sensitive c = record c {
    written = c.written + 1;
    sensitive = if sensitive then c.sensitive + 1 else c.sensitive;
  }
  count_write false sensitive c = record c { unchanged = c.unchanged + 1 }

  -- The end of a round: the disk and the counts after a plan is carried out.
  pub carry_out : Settings → Plan → State → Counts → State × Counts
  carry_out settings skip disk c = (disk, record c { skipped = c.skipped + 1 })
  carry_out settings preserve disk c = (disk, record c { unchanged = c.unchanged + 1 })
  carry_out settings (remove rel false) disk c = (disk, record c { unchanged = c.unchanged + 1 })
  carry_out settings (remove rel true) disk c = (
    (if settings.args.dry_run
        then disk
        else prune_empty_parents host settings.args.consumer rel
            (unlink (below settings.args.consumer rel) disk)),
    record c { removed = c.removed + 1 },
  )
  carry_out settings (write rel content bits sensitive) disk c =
      let path = below settings.args.consumer rel in
      let (after, changed) = write_if_changed host disk path content bits in
      if settings.args.dry_run
      then (disk, count_write (differs disk path content bits) sensitive c)
      else (after, count_write changed sensitive c)

  -- How far the run came: the exit's refusal, if one ended it, and what it left behind.
  pub record Ran : Type 0 where
    pub refusal : Option Refusal
    pub disk : State
    pub counts : Counts

  pub stop : Refusal → State → Counts → Ran
  stop e disk c = record { refusal = some e; disk = disk; counts = c }

  pub run_targets : Settings → List Value → State → Counts → Ran
  run_targets settings [] disk c = record { refusal = none; disk = disk; counts = c }
  run_targets settings (v ∷ vs) disk c = elim (plan host settings disk v) [
    | err e ↦ stop e disk c
    | ok p ↦
        let (after, counts) = carry_out settings p disk c in run_targets settings vs after counts
  ]

  pub is_empty : List Value → Bool
  is_empty [] = true
  is_empty (v ∷ vs) = false

  -- The two passes: the refusal that they give before anything is changed.
  pub admission : Settings → List Value → State → Outcome Refusal (Unit {0})
  admission settings targets disk = do
    reject (not (is_empty (config_write_targets settings disk targets))) config_destination
    reject (not (is_empty (unconsented_sensitive_writes settings disk targets))) sensitive_write

  pub after_admission : Settings → List Value → State → Outcome Refusal (Unit {0}) → Ran
  after_admission settings targets disk (err e) = stop e disk zero_counts
  after_admission settings targets disk (ok _) = run_targets settings targets disk zero_counts

  pub after_documents : Outcome Refusal (Settings × List Value) → State → Ran
  after_documents (err e) disk = stop e disk zero_counts
  after_documents (ok (settings, targets)) disk =
      after_admission settings targets disk (admission settings targets disk)

  -- `main`, from the two parsed documents on. The exit code is 0 without a refusal and 1 with one.
  pub main : Args → Value → Value → State → Ran
  main args targets_doc config_doc disk =
      after_documents (read_documents args targets_doc config_doc) disk

-- Names what a run of `main` opens.
unfoldable pub engine_run : Unit {0}
unfolding write_dest gated_dest source_in creates_if_missing config_offence writes_config
    config_write_targets lacks_consent_at lacks_consent_to lacks_consent
    unconsented_sensitive_writes differs count_write carry_out stop run_targets is_empty admission
    after_admission after_documents main
engine_run = tt
