-- ===== src/Sync/Engine/Policy.antt =====
-- The changes that `main` of sync-engine.py is meant to be permitted, as a relation between
-- disks: writes and removals at destinations that the consumer's policy admits.
use codex_platform.Base.{ℕ, ◌≡◌, Bool, true, false, Option, some, Text, ◌⊎◌}
use codex_platform.Sync.Sensitive.{is_sensitive_write_dest, is_sensitive_delete_dest}
use codex_platform.Sync.Paths.{Segments, same_path, join_slash, resolve_under}
use codex_platform.Sync.Host.{Host, write_if_changed, prune_empty_parents}
use codex_platform.Sync.Render.Collapse.{has_text}
use codex_platform.Sync.Engine.Settings.{Settings}
use codex_platform.Sync.Engine.Plan.{Plan, skip, remove, preserve, write, is_allowed, below}

module _ (host : Host) (settings : Settings) where
  open host use {State, resolve, unlink}

  -- The destination that the policy speaks of: canonical, below the root and let through.
  pub record Admitted (rel : Segments) : Type 0 where
    pub inside : resolve_under settings.args.consumer (join_slash rel) ≡ some rel
    pub allowed : is_allowed settings (join_slash rel) ≡ true

  pub record MayWrite (disk : State) (rel : Segments) : Type 0 where
    pub admitted : Admitted rel
    pub no_config :
        same_path (resolve disk (below settings.args.consumer rel)) settings.args.config_path
        ≡ false
    pub consented :
        (is_sensitive_write_dest (join_slash rel) ≡ false)
        ⊎ (has_text (join_slash rel) settings.consent ≡ true)

  pub record MayRemove (rel : Segments) : Type 0 where
    pub admitted : Admitted rel
    pub no_guard : is_sensitive_delete_dest (join_slash rel) ≡ false

  -- A sequence of permitted changes.
  pub data Changes : State → State → Type 0 where
    unchanged : {disk : State} → Changes disk disk
    wrote :
        {disk last : State} (rel : Segments) (content : Text) (bits : Option ℕ)
        → MayWrite disk rel
        → Changes
            (write_if_changed host disk (below settings.args.consumer rel) content bits).0
            last
        → Changes disk last
    removed :
        {disk last : State} (rel : Segments)
        → MayRemove rel
        → Changes
            (prune_empty_parents host settings.args.consumer rel
              (unlink (below settings.args.consumer rel) disk))
            last
        → Changes disk last

  -- What a plan is permitted by, when it is made.
  pub data Permitted (disk : State) : Plan → Type 0 where
    may_skip : Permitted disk skip
    may_preserve : Permitted disk preserve
    may_remove :
        (rel : Segments) (existed : Bool) → MayRemove rel → Permitted disk (remove rel existed)
    may_write :
        (rel : Segments) (content : Text) (bits : Option ℕ) (sensitive : Bool)
        → MayWrite disk rel
        → Permitted disk (write rel content bits sensitive)
