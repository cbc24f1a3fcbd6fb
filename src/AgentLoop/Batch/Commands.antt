-- ===== src/AgentLoop/Batch/Commands.antt =====
-- The commands `batch-create`, `batch-update` and `batch-show` of agent-loop-state.py.
pub mod Step
pub mod History
use codex_platform.Base.{
  ℕ, suc, String, Bool, true, false, not, ◌&&◌, ◌||◌, List, [], ◌∷◌, map, Option, none, some,
  str_eq, leb, if◌then◌else◌, get_elem?, set, length,
}
use codex_platform.Base.Outcome.{ok, err, reject, ◌>>=◌, ◌>>◌}
use codex_platform.Base.Value.{
  ℤ, pos, Value, null, int, str, arr, obj, Fields, end, field, lookup, put, of_list, eq_int, eq_str,
  elem_str,
}
use codex_platform.AgentLoop.Failure.{Checked, state_error, type_error, fail, item}
use codex_platform.AgentLoop.Disk.{Disk, Faults, Ran, read_state, write_fields}
use codex_platform.AgentLoop.RunState.Commands.{Resolve}
use codex_platform.AgentLoop.RunState.Validate.{is_null}
use codex_platform.AgentLoop.Batch.Validate.{as_list, settled, validate_batch}

-- `_read_batch`
unfoldable pub read_batch : Disk → String → Checked Fields
read_batch disk path = read_state "batch state" validate_batch disk path

-- The parsed options of `batch-create`; `issues` are the numbers between the commas.
pub record BatchCreateArgs : Type 0 where
  pub file : String
  pub run_id : String
  pub repo : String
  pub base_branch : String
  pub project_dir : Option String
  pub git_config_sha256 : Option String
  pub issues : List ℤ

pending_row : ℤ → Value
pending_row issue =
    obj
      (field "issue" (int issue) (field "status" (str "pending") (field "childRunState" null end)))

initial_batch : BatchCreateArgs → Fields
initial_batch args = field "version" (int (pos 1)) (
    field "kind" (str "batch") (
      field "runId" (str args.run_id) (
        field "repo" (str args.repo) (
          field "baseBranch" (str args.base_branch) (
            field "allowlist" (arr (of_list (map int args.issues))) (
              field "cursor" (int (pos 0))
                (field "issues" (arr (of_list (map pending_row args.issues))) end)))))))

batch_project : Resolve → Option String → Option String → Fields → Checked Fields
batch_project resolve (some dir) (some digest) fs =
    ok (put "gitConfigSha256" (str digest) (put "projectDir" (str (resolve dir)) fs))
batch_project resolve none none fs = ok fs
batch_project resolve _ _ fs =
    fail ("batch project dir and Git config digest must be provided together" ∷ [])

pub created_batch : Resolve → BatchCreateArgs → Checked Fields
created_batch resolve args =
    batch_project resolve args.project_dir args.git_config_sha256 (initial_batch args)

unfoldable pub batch_create : Faults → Resolve → BatchCreateArgs → Disk → Ran
batch_create faults resolve args disk =
    write_fields faults "batch state" validate_batch args.file false disk
      (created_batch resolve args)

-- The parsed options of `batch-update`.
pub record BatchUpdateArgs : Type 0 where
  pub file : String
  pub issue : ℤ
  pub expected_status : String
  pub status : String
  pub child_run_state : Option String

-- `value["cursor"]` and `value["issues"]`, which a validated state holds in these forms.
natural : Value → Checked ℕ
natural (int (pos n)) = ok n
natural _ = err type_error

items : Value → Checked (List Value)
items v = elim (as_list v) [ none ↦ err type_error | some vs ↦ ok vs ]

row_of : Value → Checked Fields
row_of (obj row) = ok row
row_of _ = err type_error

-- The row at the cursor, which must be that of the issue.
row_for : ℤ → Option Value → Checked Fields
row_for issue none = fail ("batch update may target only the current cursor issue" ∷ [])
row_for issue (some v) = do
  row ← row_of v
  number ← item row "issue"
  reject (not (eq_int number issue))
      (state_error ("batch update may target only the current cursor issue" ∷ []))
  ok row

-- `allowed_transitions.get(expected, set())`
abbrev pub allowed_from : String → List String
allowed_from expected =
    if str_eq expected "pending"
    then "active" ∷ "bailed" ∷ []
    else if str_eq expected "active"
    then "active" ∷ "finalized" ∷ "bailed" ∷ []
    else []

status_text : Value → String
status_text (str s) = s
status_text _ = ""

check_transition : BatchUpdateArgs → Fields → Checked (Unit {0})
check_transition args row = do
  status ← item row "status"
  reject (not (eq_str status args.expected_status)) (
      state_error (
        "batch update status changed: expected "
        ∷ args.expected_status
        ∷ ", found "
        ∷ status_text status
        ∷ []))
  reject (not (elem_str args.status (allowed_from args.expected_status)))
      (state_error ("batch issue has an invalid status transition" ∷ []))

with_child : Resolve → Option String → Fields → Fields
with_child resolve none row = row
with_child resolve (some path) row = put "childRunState" (str (resolve path)) row

pub new_row : Resolve → BatchUpdateArgs → Fields → Fields
new_row resolve args row =
    with_child resolve args.child_run_state (put "status" (str args.status) row)

check_child : BatchUpdateArgs → Fields → Checked (Unit {0})
check_child args row = do
  child ← item row "childRunState"
  reject (str_eq args.status "finalized" && is_null child)
      (state_error ("finalized batch issue requires a child run-state path" ∷ []))

pub next_cursor : BatchUpdateArgs → ℕ → ℕ
next_cursor args cursor = if elem_str args.status settled then suc cursor else cursor

-- The dict after the assignments to the row and the cursor.
pub assigned : Fields → List Value → ℕ → Fields → ℕ → Fields
assigned fs rows cursor row cursor' =
    put "cursor" (int (pos cursor')) (put "issues" (arr (of_list (set rows cursor (obj row)))) fs)

pub batch_step : Resolve → BatchUpdateArgs → Fields → Checked Fields
batch_step resolve args fs = do
  cursor_value ← item fs "cursor"
  cursor ← natural cursor_value
  issues ← item fs "issues"
  rows ← items issues
  row ← row_for args.issue (get_elem? rows cursor)
  check_transition args row
  check_child args (new_row resolve args row)
  ok (assigned fs rows cursor (new_row resolve args row) (next_cursor args cursor))

pub stepped_batch : Resolve → BatchUpdateArgs → Disk → Checked Fields
stepped_batch resolve args disk = do fs ← read_batch disk args.file; batch_step resolve args fs

unfoldable pub batch_update : Faults → Resolve → BatchUpdateArgs → Disk → Ran
batch_update faults resolve args disk =
    write_fields faults "batch state" validate_batch args.file true disk
      (stepped_batch resolve args disk)

abbrev pub batch_show : String → Disk → Checked Fields
batch_show file disk = read_batch disk file

-- Names what a run of the batch commands opens.
unfoldable pub batch_run : Unit {0}
unfolding batch_create batch_update created_batch batch_project initial_batch pending_row
    stepped_batch batch_step natural items row_of row_for check_transition status_text with_child
    new_row check_child next_cursor assigned read_batch
batch_run = tt
