-- ===== src/AgentLoop/RunState/Commands/Writes.antt =====
-- On `_create` and `_update` of agent-loop-state.py: what they print and leave on the disk.
use codex_platform.Base.{◌≡◌, true, false, some}
use codex_platform.Base.Outcome.{ok, err}
use codex_platform.Base.Value.{Fields}
use codex_platform.AgentLoop.Failure.{Failure}
use codex_platform.AgentLoop.Disk.{Disk, Faults, File}
use codex_platform.AgentLoop.Disk.Write.{Undone}
use codex_platform.AgentLoop.Disk.Command.{
  Ended, write_fields_cases, reads_back, failed-Undone, keeps_old,
}
use codex_platform.AgentLoop.RunState.Validate.{validate}
use codex_platform.AgentLoop.RunState.Commands.{
  read, Resolve, CreateArgs, created_fields, create, UpdateArgs, updated_fields, update, show,
}

module _ (faults : Faults) (args : UpdateArgs) (disk : Disk) where
  update-Ended :
      Ended faults validate disk args.file true (updated_fields args disk) (update faults args disk)
  unfolding update
  update-Ended =
      write_fields_cases faults "run state" validate args.file true disk (updated_fields args disk)

  -- If `update` succeeds, the printed state is the one it built from the old state, it is
  -- valid, and `show` on the new disk gives it back.
  pub update_reads_back :
      (fs : Fields)
      → (update faults args disk).0 ≡ ok fs
      → (updated_fields args disk ≡ ok fs)
        × (validate fs ≡ ok tt)
        × (show args.file (update faults args disk).1 ≡ ok fs)
  unfolding read
  update_reads_back fs =
      reads_back faults "run state" validate disk args.file true _ _ fs update-Ended

  -- If the fsync of the directory does not raise, an update that raises leaves every file as it
  -- was and no temporary file behind, and changes the permissions of no directory but the state
  -- file's own.
  pub update_atomic :
      (e : Failure)
      → faults.syncing_dir ≡ false
      → (update faults args disk).0 ≡ err e
      → Undone args.file disk (update faults args disk).1
  update_atomic e = failed-Undone faults validate disk args.file true _ _ e update-Ended

module _ (faults : Faults) (resolve : Resolve) (args : CreateArgs) (disk : Disk) where
  create-Ended :
      Ended faults validate disk args.file false
        (created_fields resolve args)
        (create faults resolve args disk)
  unfolding create
  create-Ended =
      write_fields_cases faults "run state" validate args.file false disk
        (created_fields resolve args)

  -- If `create` succeeds, the printed state is the one it built from its options, it is valid,
  -- and `show` on the new disk gives it back.
  pub create_reads_back :
      (fs : Fields)
      → (create faults resolve args disk).0 ≡ ok fs
      → (created_fields resolve args ≡ ok fs)
        × (validate fs ≡ ok tt)
        × (show args.file (create faults resolve args disk).1 ≡ ok fs)
  unfolding read
  create_reads_back fs =
      reads_back faults "run state" validate disk args.file false _ _ fs create-Ended

  -- Where a file has the name already, whatever it holds, `create` raises and leaves every file
  -- as it was and no temporary file behind, and changes the permissions of no directory but the
  -- state file's own.
  pub create_keeps_old :
      (old : File)
      → disk.files args.file ≡ some old
      → ((e : Failure) × ((create faults resolve args disk).0 ≡ err e))
        × Undone args.file disk (create faults resolve args disk).1
  create_keeps_old old = keeps_old faults validate disk args.file _ _ old create-Ended
