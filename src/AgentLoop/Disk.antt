-- ===== src/AgentLoop/Disk.antt =====
-- `_read_state` and `_atomic_write_state`: private files that hold one JSON object each.
-- The disk is a map from paths to files. What a file holds is the value that `json.loads` gives for
-- its bytes (`none` where it raises), so a dump that is loaded again is the value itself.
pub mod Write
pub mod Command
use codex_platform.Base.{
  ℕ, ◌%◌, String, Bool, true, false, not, ◌&&◌, List, [], ◌∷◌, Option, none, some, str_eq, ◌==◌,
  if◌then◌else◌,
}
use codex_platform.Base.Outcome.{ok, err, reject, ◌>>=◌, ◌>>◌}
use codex_platform.Base.Value.{Value, obj, Fields}
use codex_platform.AgentLoop.Failure.{state_error, os_error, Checked, fail}

-- `owned` compares `st_uid` with the caller's; `mode` is the permission bits.
pub record File : Type 0 where
  pub regular : Bool
  pub owned : Bool
  pub mode : ℕ
  pub content : Option Value

-- `parent` is `path.parent`; `parent_is_link` tells of a path whether that is a symbolic link;
-- `dir_modes` are the permission bits of the directories that are there; `leftovers` are the
-- temporary files that writes have left behind.
pub record Disk : Type 0 where
  pub files : String → Option File
  pub parent : String → String
  pub parent_is_link : String → Bool
  pub dir_modes : String → Option ℕ
  pub leftovers : List File

-- Which system calls of a write raise OSError: the mkdir and the chmod of the directory, the making
-- of the temporary file, what fills it, the replace or the link, and the opening and fsync of the
-- directory after it.
pub record Faults : Type 0 where
  pub making_dir : Bool
  pub opening_dir : Bool
  pub making_temporary : Bool
  pub staging : Bool
  pub placing : Bool
  pub syncing_dir : Bool

abbrev pub Validator : Type 0
Validator = Fields → Checked (Unit {0})

-- `if not isinstance(value, dict): _fail(...)`
as_object : String → Option Value → Checked Fields
as_object label none = fail (label ∷ " must contain valid UTF-8 JSON" ∷ [])
as_object label (some (obj fs)) = ok fs
as_object label (some _) = fail (label ∷ " must be a JSON object" ∷ [])

read_file : String → Validator → File → Checked Fields
unfolding as_object
read_file label validator file = do
  reject (not (file.regular && file.owned))
      (state_error (label ∷ " must be an owner-controlled regular file" ∷ []))
  reject (not (file.mode % 64 == 0))
      (state_error (label ∷ " permissions must not grant group or other access" ∷ []))
  fs ← as_object label file.content
  validator fs
  ok fs

-- `os.lstat` raises OSError where there is no file.
read_found : String → Validator → Option File → Checked Fields
read_found label validator none = err os_error
read_found label validator (some file) = read_file label validator file

unfoldable pub read_state : String → Validator → Disk → String → Checked Fields
unfolding read_file read_found
read_state label validator disk path = read_found label validator (disk.files path)

abbrev pub private_file : Fields → File
private_file fs = record { regular = true; owned = true; mode = 0o600; content = some (obj fs) }

abbrev mode_or : ℕ → Option ℕ → ℕ
mode_or bits none = bits
mode_or bits (some m) = m

-- `path.parent.mkdir(mode=0o700, exist_ok=True)`; the directories above it are left out.
make_dir : String → Disk → Disk
make_dir path disk = record disk {
  dir_modes = λ d.
      if str_eq (disk.parent path) d
      then some (mode_or 0o700 (disk.dir_modes d))
      else disk.dir_modes d;
}

-- `os.chmod(path.parent, 0o700)`
private_dir : String → Disk → Disk
private_dir path disk = record disk {
  dir_modes = λ d. if str_eq (disk.parent path) d then some 0o700 else disk.dir_modes d;
}

-- The disk when the temporary file is made.
pub opened : String → Disk → Disk
opened path disk = private_dir path (make_dir path disk)

-- The disk without the temporary file, and that file while its name is there.
pub record Work : Type 0 where
  pub disk : Disk
  pub temporary : Option File

-- The name gets the file, in place of what has it.
put_file : String → File → Disk → Disk
put_file path file disk = record disk {
  files = λ p. if str_eq path p then some file else disk.files p;
}

-- The disk with a validated file in place.
pub install : Disk → String → Fields → Disk
install disk path fs = put_file path (private_file fs) disk

-- The link of a file that must be new fails where any file has the name.
link_new : String → String → File → Disk → Option File → Checked (Unit {0}) × Work
link_new label path file disk (some _) =
    (fail (label ∷ " already exists" ∷ []), record { disk = disk; temporary = some file })
link_new label path file disk none =
    (ok tt, record { disk = put_file path file disk; temporary = none })

-- `os.replace(temporary, path)`, or the hard link and the unlink of the temporary name.
link_or_replace : String → Bool → String → File → Disk → Checked (Unit {0}) × Work
link_or_replace label true path file disk =
    (ok tt, record { disk = put_file path file disk; temporary = none })
link_or_replace label false path file disk = link_new label path file disk (disk.files path)

-- The fsync of the directory comes after the swap.
sync_dir : Faults → Checked (Unit {0}) × Work → Checked (Unit {0}) × Work
sync_dir faults (r, work) = (r >> reject faults.syncing_dir os_error, work)

-- The file as `mkstemp` makes it, and the block that fills and places it.
abbrev empty_file : File
empty_file = record { regular = true; owned = true; mode = 0o600; content = none }

fill_and_place : Faults → String → Bool → String → Fields → Disk → Checked (Unit {0}) × Work
fill_and_place faults label replace path fs disk =
    if faults.staging
    then (err os_error, record { disk = disk; temporary = some empty_file })
    else if faults.placing
    then (err os_error, record { disk = disk; temporary = some (private_file fs) })
    else sync_dir faults (link_or_replace label replace path (private_file fs) disk)

-- `os.unlink(temporary)` of the `finally`, where no such file is no error.
unlink_temporary : Work → Work
unlink_temporary work = record work { temporary = none }

-- What is still there when the function is left.
left_behind : Work → Disk
left_behind work = elim work.temporary [
  | none ↦ work.disk
  | some file ↦ record work.disk { leftovers = file ∷ work.disk.leftovers }
]

leave : Checked (Unit {0}) × Work → Checked (Unit {0}) × Disk
leave (r, work) = (r, left_behind (unlink_temporary work))

-- From the mkdir on, for fields that are valid.
pub write_valid : Faults → String → Bool → String → Fields → Disk → Checked (Unit {0}) × Disk
write_valid faults label replace path fs disk =
    if faults.making_dir
    then (err os_error, disk)
    else if disk.parent_is_link path
    then (fail (label ∷ " directory must not be a symlink" ∷ []), make_dir path disk)
    else if faults.opening_dir
    then (err os_error, make_dir path disk)
    else if faults.making_temporary
    then (err os_error, opened path disk)
    else leave (fill_and_place faults label replace path fs (opened path disk))

unfoldable pub atomic_write_state :
    Faults → String → Validator → Disk → String → Fields → Bool → Checked (Unit {0}) × Disk
atomic_write_state faults label validator disk path fs replace = elim (validator fs) [
  | err e ↦ (err e, disk)
  | ok _ ↦ write_valid faults label replace path fs disk
]

-- What a command prints if its write succeeds, and the disk it leaves.
abbrev pub Ran : Type 0
Ran = Checked Fields × Disk

abbrev pub written : Fields → Checked (Unit {0}) × Disk → Ran
written fs (result, disk) = (result >> ok fs, disk)

-- The write and the print at the end of a command, for fields that were built without an error.
pub write_fields : Faults → String → Validator → String → Bool → Disk → Checked Fields → Ran
write_fields faults label validator file replace disk (err e) = (err e, disk)
write_fields faults label validator file replace disk (ok fs) =
    written fs (atomic_write_state faults label validator disk file fs replace)

-- Names what a run of the file operations opens.
unfoldable pub disk_run : Unit {0}
unfolding write_fields atomic_write_state write_valid leave left_behind unlink_temporary
    fill_and_place sync_dir link_or_replace link_new install put_file opened private_dir make_dir
    read_state
disk_run = tt
