-- ===== src/Sync/Engine/Run/Ends.antt =====
-- On `main` of sync-engine.py: the disk and the counts when a run ends.
use codex_platform.Base.{
  ◌≡◌, refl, ap, ◌∙◌, true, false, List, [], ◌∷◌, none, arith, Bool-cases, inl, inr, length, any,
  ◌||◌,
}
use codex_platform.Base.Outcome.{Outcome, ok, err}
use codex_platform.Base.Value.{Value}
use codex_platform.Sync.Host.{Host}
use codex_platform.Sync.Fields.{Refusal}
use codex_platform.Sync.Engine.Settings.{Args, Settings, read_documents, read_documents-args}
use codex_platform.Sync.Engine.Run.{
  zero_counts, stop, writes_config, lacks_consent, admission, after_admission, after_documents,
  main, config_write_targets, unconsented_sensitive_writes,
}
use codex_platform.Sync.Engine.Run.Safety.{
  Outcome-cases, total, run_targets-Changes, run_targets-dry, run_targets-total, admission-ok,
}
use codex_platform.Sync.Engine.Policy.{Changes, unchanged}

module _ (host : Host) where
  open host use {State}

  main-err :
      (args : Args) (targets_doc config_doc : Value) (disk : State) (e : Refusal)
      → read_documents args targets_doc config_doc ≡ err e
      → main host args targets_doc config_doc disk ≡ stop host e disk zero_counts
  unfolding main after_documents
  main-err args targets_doc config_doc disk e h = rw (h, main)

  main-ok :
      (args : Args) (targets_doc config_doc : Value) (disk : State) (settings : Settings)
      (targets : List Value)
      → read_documents args targets_doc config_doc ≡ ok (settings, targets)
      → main host args targets_doc config_doc disk
        ≡ after_admission host settings targets disk (admission host settings targets disk)
  unfolding main after_documents
  main-ok args targets_doc config_doc disk settings targets h = rw (h, main)

  after_admission-Changes :
      (settings : Settings) (targets : List Value) (disk : State) (o : Outcome Refusal (Unit {0}))
      → Changes host settings disk (after_admission host settings targets disk o).disk
  unfolding after_admission stop
  after_admission-Changes settings targets disk (err e) = unchanged
  after_admission-Changes settings targets disk (ok _) =
      run_targets-Changes host settings targets disk zero_counts

  -- For documents that are read without an error, whatever the targets are and however the run
  -- ends, the disk that `main` leaves is reached from the first one by permitted changes only:
  -- each a write, or a removal with the pruning of the directories above it, at a path below
  -- the consumer's root whose text is canonical and passes the consumer's allowlist, no write
  -- at what resolves to the config file, no write of a sensitive path without consent, and no
  -- removal of a guarded path.
  pub main-Changes :
      (args : Args) (targets_doc config_doc : Value) (disk : State) (settings : Settings)
      (targets : List Value)
      → read_documents args targets_doc config_doc ≡ ok (settings, targets)
      → Changes host settings disk (main host args targets_doc config_doc disk).disk
  main-Changes args targets_doc config_doc disk settings targets h =
      rw (main-ok args targets_doc config_doc disk settings targets h)
        (after_admission-Changes settings targets disk (admission host settings targets disk))

  after_admission-dry :
      (settings : Settings) (targets : List Value) (disk : State) (o : Outcome Refusal (Unit {0}))
      → settings.args.dry_run ≡ true
      → (after_admission host settings targets disk o).disk ≡ disk
  unfolding after_admission stop
  after_admission-dry settings targets disk (err e) dry = refl
  after_admission-dry settings targets disk (ok _) dry =
      run_targets-dry host settings dry targets disk zero_counts

  -- A dry run leaves the disk as it was, whatever the two documents are.
  pub main_dry_run :
      (args : Args) (targets_doc config_doc : Value) (disk : State)
      → args.dry_run ≡ true
      → (main host args targets_doc config_doc disk).disk ≡ disk
  unfolding stop
  main_dry_run args targets_doc config_doc disk dry =
      elim (Outcome-cases (read_documents args targets_doc config_doc)) [
        | inl (e, h) ↦ rw (main-err args targets_doc config_doc disk e h)
        | inr ((settings, targets), h) ↦
            rw (main-ok args targets_doc config_doc disk settings targets h) (
              after_admission-dry settings targets disk _ (
                ap (λ (a : Args). a.dry_run)
                  (read_documents-args args targets_doc config_doc settings targets h)
                ∙ dry))
      ]

  after_admission-total :
      (settings : Settings) (targets : List Value) (disk : State) (o : Outcome Refusal (Unit {0}))
      → (after_admission host settings targets disk o).refusal ≡ none
      → (o ≡ ok tt) × (total (after_admission host settings targets disk o).counts ≡ length targets)
  unfolding after_admission stop
  after_admission-total settings targets disk (err e) over = absurd (grind (arith, over))
  after_admission-total settings targets disk (ok _) over =
      (refl, omega (arith, run_targets-total host settings targets disk zero_counts over))

  config_write_targets-any :
      (settings : Settings) (disk : State) (vs : List Value)
      → config_write_targets host settings disk vs ≡ []
      → any (writes_config host settings disk) vs ≡ false
  unfolding config_write_targets
  config_write_targets-any settings disk [] h = refl
  config_write_targets-any settings disk (v ∷ vs) h =
      elim (Bool-cases (writes_config host settings disk v)) [
        | inl offends ↦ absurd (grind (arith, rw offends at h))
        | inr fine ↦ rw fine (config_write_targets-any settings disk vs (rw fine at h))
      ]

  unconsented_sensitive_writes-any :
      (settings : Settings) (disk : State) (vs : List Value)
      → unconsented_sensitive_writes host settings disk vs ≡ []
      → any (lacks_consent host settings disk) vs ≡ false
  unfolding unconsented_sensitive_writes
  unconsented_sensitive_writes-any settings disk [] h = refl
  unconsented_sensitive_writes-any settings disk (v ∷ vs) h =
      elim (Bool-cases (lacks_consent host settings disk v)) [
        | inl offends ↦ absurd (grind (arith, rw offends at h))
        | inr fine ↦ rw fine (unconsented_sensitive_writes-any settings disk vs (rw fine at h))
      ]

  -- For documents that are read without an error, a run that ends without a refusal counted
  -- each target exactly once as written, removed, skipped or unchanged, by the disk at the
  -- start no target would write the config file, and none would write a sensitive path without
  -- consent.
  pub main_completes :
      (args : Args) (targets_doc config_doc : Value) (disk : State) (settings : Settings)
      (targets : List Value)
      → read_documents args targets_doc config_doc ≡ ok (settings, targets)
      → (main host args targets_doc config_doc disk).refusal ≡ none
      → (total (main host args targets_doc config_doc disk).counts ≡ length targets)
        × (any (writes_config host settings disk) targets ≡ false)
        × (any (lacks_consent host settings disk) targets ≡ false)
  main_completes args targets_doc config_doc disk settings targets h over =
      let opened = main-ok args targets_doc config_doc disk settings targets h in
      let (admitted, counted) = after_admission-total settings targets disk _ (rw opened at over) in
      let (config, consent) = admission-ok host settings targets disk admitted in
      (
        rw opened counted,
        config_write_targets-any settings disk targets config,
        unconsented_sensitive_writes-any settings disk targets consent,
      )

  after_admission-err :
      (settings : Settings) (targets : List Value) (disk : State)
      → any (writes_config host settings disk) targets
          || any (lacks_consent host settings disk) targets
        ≡ true
      → (o : Outcome Refusal (Unit {0})) → admission host settings targets disk ≡ o
      → (after_admission host settings targets disk o).disk ≡ disk
  unfolding after_admission stop
  after_admission-err settings targets disk offends (err e) h = refl
  after_admission-err settings targets disk offends (ok _) h =
      let (config, consent) = admission-ok host settings targets disk h in
      absurd (
        grind (
          arith,
          offends,
          config_write_targets-any settings disk targets config,
          unconsented_sensitive_writes-any settings disk targets consent,
        ))

  -- For documents that are read without an error, if by the disk at the start any target would
  -- write the config file, or any would write a sensitive path without consent, wherever it
  -- stands in the list, then `main` leaves the disk as it was.
  pub main_refuses :
      (args : Args) (targets_doc config_doc : Value) (disk : State) (settings : Settings)
      (targets : List Value)
      → read_documents args targets_doc config_doc ≡ ok (settings, targets)
      → any (writes_config host settings disk) targets
          || any (lacks_consent host settings disk) targets
        ≡ true
      → (main host args targets_doc config_doc disk).disk ≡ disk
  main_refuses args targets_doc config_doc disk settings targets h offends =
      rw (main-ok args targets_doc config_doc disk settings targets h)
        (after_admission-err settings targets disk offends _ refl)
