-- ===== src/AgentLoop/Disk/Command.antt =====
-- On the commands of agent-loop-state.py that write a state file: the ways in which they end.
use mathlib.Core.Path.{subst}
use codex_platform.Base.{
  String, ◌≡◌, refl, ap, sym, ◌∙◌, Bool, true, false, ◌⊎◌, inl, inr, none, some, arith,
}
use codex_platform.Base.Outcome.{ok, err, reject, ◌>>◌}
use codex_platform.Base.Value.{Fields}
use codex_platform.AgentLoop.Failure.{Failure, Checked, os_error}
use codex_platform.AgentLoop.Disk.{
  Disk, Faults, File, Validator, read_state, install, opened, Ran, written, write_fields,
}
use codex_platform.AgentLoop.Disk.Write.{
  Undone, Undone-refl, Left, undone, installed, atomic_write-Left, read_state-install,
}

-- How a command ended whose new fields are `r`: it raised and what it did is undone, or its validated
-- fields are in place, whatever the fsync of the directory did.
pub data Ended (faults : Faults) (validator : Validator) (disk : Disk) (path : String)
    (replace : Bool) (r : Checked Fields) (ran : Ran) : Type 0 where
  refused :
      (e : Failure)
      → ran.0 ≡ err e
      → Undone path disk ran.1
      → Ended faults validator disk path replace r ran
  placed :
      (fs : Fields)
      → r ≡ ok fs
      → validator fs ≡ ok tt
      → (replace ≡ true) ⊎ (disk.files path ≡ none)
      → ran ≡ ((reject faults.syncing_dir os_error >> ok fs), install (opened path disk) path fs)
      → Ended faults validator disk path replace r ran

pub write_fields_cases :
    (faults : Faults) (label : String) (validator : Validator) (path : String) (replace : Bool)
    (disk : Disk) (r : Checked Fields)
    → Ended faults validator disk path replace r
        (write_fields faults label validator path replace disk r)
unfolding write_fields
write_fields_cases faults label validator path replace disk (err e) =
    refused e refl (Undone-refl path disk)
write_fields_cases faults label validator path replace disk (ok fs) =
    elim (atomic_write-Left faults label path fs disk validator replace) [
      | inl (valid, left) ↦ ended fs valid _ left
      | inr (e, same) ↦
          refused e (ap (λ r. (written fs r).0) same)
            (subst (λ r. Undone path disk (written fs r).1) (sym same) (Undone-refl path disk))
    ]
  where
    ended :
        (fs : Fields)
        → validator fs ≡ ok tt
        → (r : Checked (Unit {0}) × Disk) → Left faults label path fs disk replace r
        → Ended faults validator disk path replace (ok fs) (written fs r)
    ended fs valid _ (undone e after kept) = refused e refl kept
    ended fs valid _ (installed fresh) = placed fs refl valid fresh refl

-- What a successful command printed is what `show` reads back, through every check of `_read`.
pub reads_back :
    (faults : Faults) (label : String) (validator : Validator) (disk : Disk) (path : String)
    (replace : Bool) (r : Checked Fields) (ran : Ran) (fs : Fields)
    → Ended faults validator disk path replace r ran
    → ran.0 ≡ ok fs
    → (r ≡ ok fs) × (validator fs ≡ ok tt) × (read_state label validator ran.1 path ≡ ok fs)
reads_back faults label validator disk path replace r ran fs (refused e h kept) succeeded = cc
reads_back faults label validator disk path replace r ran fs (placed gs made valid fresh h)
      succeeded =
    let same : gs ≡ fs = ground arith in
    (
      cc,
      subst (λ x. validator x ≡ ok tt) same valid,
      ap (λ d. read_state label validator d path) (ap (λ (x : Ran). x.1) h)
          ∙ read_state-install label validator (opened path disk) path gs valid
          ∙ ap ok same,
    )

pub failed-Undone :
    (faults : Faults) (validator : Validator) (disk : Disk) (path : String) (replace : Bool)
    (r : Checked Fields) (ran : Ran) (e : Failure)
    → Ended faults validator disk path replace r ran
    → faults.syncing_dir ≡ false
    → ran.0 ≡ err e
    → Undone path disk ran.1
failed-Undone faults validator disk path replace r ran e (refused _ h kept) calm failed = kept
failed-Undone faults validator disk path replace r ran e (placed fs made valid fresh h) calm
      failed =
    absurd (ground arith)

-- A command that replaces nothing is undone where the file is there already.
pub keeps_old :
    (faults : Faults) (validator : Validator) (disk : Disk) (path : String) (r : Checked Fields)
    (ran : Ran) (old : File)
    → Ended faults validator disk path false r ran
    → disk.files path ≡ some old
    → ((e : Failure) × (ran.0 ≡ err e)) × Undone path disk ran.1
keeps_old faults validator disk path r ran old (refused e h kept) there = ((e, h), kept)
keeps_old faults validator disk path r ran old (placed fs made valid fresh h) there =
    absurd (ground arith)
