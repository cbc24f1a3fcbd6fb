-- ===== src/AgentLoop/Disk/Write.antt =====
-- On `_atomic_write_state` of agent-loop-state.py, for any label and validator.
use text.Mathlib.TextPositions.{eq_refl}
use codex_platform.Base.{
  String, ◌%◌, ◌==◌, not, ◌&&◌, Option, none, some, ◌≡◌, refl, ap, ◌∙◌, ◌≢◌, Bool, true, false, ◌⊎◌,
  inl, inr, Option, none, some, arith, str_eq, str_eq_iff, if_ind,
}
use codex_platform.Base.Outcome.{ok, err, reject, ok_inj, >>-eq-ok, >>=-eq-ok, Outcome-cases}
use codex_platform.Base.Value.{Fields}
use codex_platform.AgentLoop.Failure.{Failure, Checked, os_error}
use codex_platform.AgentLoop.Disk.{
  Disk, Faults, File, Validator, as_object, read_file, read_found, read_state, private_file,
  install, make_dir, opened, link_new, link_or_replace, sync_dir, fill_and_place, leave,
  left_behind, unlink_temporary, write_valid, put_file, atomic_write_state, disk_run,
}

install_self :
    (disk : Disk) (path : String) (fs : Fields)
    → (install disk path fs).files path ≡ some (private_file fs)
unfolding install put_file
install_self disk path fs = rw (eq_refl path)

pub install_ne :
    (disk : Disk) (path other : String) (fs : Fields)
    → path ≢ other
    → (install disk path fs).files other ≡ disk.files other
unfolding install put_file
install_ne disk path other fs h = ground (arith, str_eq_iff path other)

-- The files and the temporary files are those of the first disk, and only the permissions of the
-- path's own directory may be others.
pub record Undone (path : String) (disk after : Disk) : Type 0 where
  pub files_kept : after.files ≡ disk.files
  pub leftovers_kept : after.leftovers ≡ disk.leftovers
  pub dirs_kept :
      (d : String) → str_eq (disk.parent path) d ≡ false → after.dir_modes d ≡ disk.dir_modes d

pub Undone-refl : (path : String) (disk : Disk) → Undone path disk disk
Undone-refl path disk = record {
  files_kept = refl;
  leftovers_kept = refl;
  dirs_kept = λ d other. refl;
}

Undone-make_dir : (path : String) (disk : Disk) → Undone path disk (make_dir path disk)
unfolding make_dir
Undone-make_dir path disk = record {
  files_kept = refl;
  leftovers_kept = refl;
  dirs_kept = λ d other. rw other refl;
}

Undone-opened : (path : String) (disk : Disk) → Undone path disk (opened path disk)
unfolding disk_run
Undone-opened path disk = record {
  files_kept = refl;
  leftovers_kept = refl;
  dirs_kept = λ d other. rw other refl;
}

module _ (faults : Faults) (label : String) (path : String) (fs : Fields) (disk : Disk) where
  -- A result is undone, or has the new file in place.
  pub data Left (replace : Bool) : Checked (Unit {0}) × Disk → Type 0 where
    undone : (e : Failure) (after : Disk) → Undone path disk after → Left replace (err e, after)
    installed :
        (replace ≡ true) ⊎ (disk.files path ≡ none)
        → Left replace (reject faults.syncing_dir os_error, install (opened path disk) path fs)

  linked-Left :
      (old : Option File)
      → disk.files path ≡ old
      → Left false
          (leave (sync_dir faults (link_new label path (private_file fs) (opened path disk) old)))
  unfolding disk_run
  linked-Left none e = installed (inr e)
  linked-Left (some old) e = undone _ (opened path disk) (Undone-opened path disk)

  placed-Left :
      (replace : Bool)
      → Left replace (
          leave (
            sync_dir faults
              (link_or_replace label replace path (private_file fs) (opened path disk))))
  unfolding disk_run
  placed-Left true = installed (inl refl)
  placed-Left false = linked-Left (disk.files path) refl

  filled-Left :
      (replace : Bool)
      → Left replace (leave (fill_and_place faults label replace path fs (opened path disk)))
  unfolding fill_and_place leave left_behind unlink_temporary
  filled-Left replace =
      if_ind (λ x. Left replace (leave x)) faults.staging
        (λ _. undone _ (opened path disk) (Undone-opened path disk))
        (λ _.
          if_ind (λ x. Left replace (leave x)) faults.placing
            (λ _. undone _ (opened path disk) (Undone-opened path disk)) (λ _. placed-Left replace))

  write_valid-Left : (replace : Bool) → Left replace (write_valid faults label replace path fs disk)
  unfolding write_valid
  write_valid-Left replace =
      if_ind (Left replace) faults.making_dir (λ _. undone _ disk (Undone-refl path disk))
        (λ _.
          if_ind (Left replace) (disk.parent_is_link path)
            (λ _. undone _ _ (Undone-make_dir path disk))
            (λ _.
              if_ind (Left replace) faults.opening_dir (λ _. undone _ _ (Undone-make_dir path disk))
                (λ _.
                  if_ind (Left replace) faults.making_temporary
                    (λ _. undone _ _ (Undone-opened path disk)) (λ _. filled-Left replace))))

  -- The two ways that a write ends: it is undone, or the new file is in place, validated.
  pub atomic_write-Left :
      (validator : Validator) (replace : Bool)
      → ((validator fs ≡ ok tt)
          × Left replace (atomic_write_state faults label validator disk path fs replace))
        ⊎ ((e : Failure) × (atomic_write_state faults label validator disk path fs replace
              ≡ (err e, disk)))
  unfolding atomic_write_state
  atomic_write-Left validator replace = elim (Outcome-cases (validator fs)) [
    | inl (e, bad) ↦ inr (e, rw (bad, atomic_write_state) refl)
    | inr (_, good) ↦ inl (good, rw (good, atomic_write_state) (write_valid-Left replace))
  ]

pub read_state-install :
    (label : String) (validator : Validator) (disk : Disk) (path : String) (fs : Fields)
    → validator fs ≡ ok tt
    → read_state label validator (install disk path fs) path ≡ ok fs
unfolding read_state read_file as_object
read_state-install label validator disk path fs h =
    ap (read_found label validator) (install_self disk path fs) ∙ rw h

-- What is read passed the validator.
pub read_state-valid :
    (label : String) (validator : Validator) (disk : Disk) (path : String) (fs : Fields)
    → read_state label validator disk path ≡ ok fs
    → validator fs ≡ ok tt
unfolding read_state
read_state-valid label validator disk path fs = go (disk.files path)
  where
    from_file : (file : File) → read_file label validator file ≡ ok fs → validator fs ≡ ok tt
    from_file file h =
        let (_, h) = >>-eq-ok (reject (not (file.regular && file.owned)) _) _ h in
        let (_, h) = >>-eq-ok (reject (not (file.mode % 64 == 0)) _) _ h in
        let (gs, _, h) = >>=-eq-ok (as_object label file.content) _ h in
        let (valid, last) = >>-eq-ok (validator gs) (ok gs) h in rw (← ok_inj last) valid

    go : (found : Option File) → read_found label validator found ≡ ok fs → validator fs ≡ ok tt
    go none h = cc
    go (some file) h = from_file file h
