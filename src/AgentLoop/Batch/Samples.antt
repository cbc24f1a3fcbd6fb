-- ===== src/AgentLoop/Batch/Samples.antt =====
-- Runs of the batch commands on concrete states, and the theorems at these runs.
use codex_platform.Base.{ℕ, String, ◌≡◌, refl, false, List, [], ◌∷◌, none, get_elem?, ◌≤◌, arith}
use codex_platform.Base.Outcome.{ok, err}
use codex_platform.Base.Value.{pos, Value, null, int, str, arr, obj, nil, cons, Fields, end, field}
use codex_platform.AgentLoop.Failure.{state_error, is_hex_run}
use codex_platform.AgentLoop.Disk.{Disk, Faults, disk_run}
use codex_platform.AgentLoop.Batch.Validate.{validate_batch_run, row_status}
use codex_platform.AgentLoop.Batch.Validate.Rows.{Fits}
use codex_platform.AgentLoop.Batch.Commands.{
  BatchCreateArgs, batch_create, BatchUpdateArgs, batch_update, batch_show, batch_run,
}
use codex_platform.AgentLoop.Batch.Commands.Step.{Stepped}
use codex_platform.AgentLoop.Batch.Commands.History.{
  batch_update-Stepped, done, then_update, ShowsRows, settled_row_stays, shown_row-Fits,
}

abbrev faultless : Faults
faultless = record {
  making_dir = false;
  opening_dir = false;
  making_temporary = false;
  staging = false;
  placing = false;
  syncing_dir = false;
}

abbrev empty_disk : Disk
empty_disk = record {
  files = λ path. none;
  parent = λ path. "/state";
  parent_is_link = λ path. false;
  dir_modes = λ dir. none;
  leftovers = [];
}

abbrev same_path : String → String
same_path path = path

abbrev batch_file : String
batch_file = "/state/batch.json"

abbrev create_args : BatchCreateArgs
create_args = record {
  file = batch_file;
  run_id = "batch-1";
  repo = "owner/name";
  base_branch = "main";
  project_dir = none;
  git_config_sha256 = none;
  issues = pos 7 ∷ pos 9 ∷ [];
}

abbrev update_args : ℕ → String → String → BatchUpdateArgs
update_args issue expected status = record {
  file = batch_file;
  issue = pos issue;
  expected_status = expected;
  status = status;
  child_run_state = none;
}

abbrev row : ℕ → String → Value
row issue status =
    obj (
      field "issue" (int (pos issue))
        (field "status" (str status) (field "childRunState" null end)))

abbrev batch_fields : ℕ → String → String → Fields
batch_fields cursor first second = field "version" (int (pos 1)) (
    field "kind" (str "batch") (
      field "runId" (str "batch-1") (
        field "repo" (str "owner/name") (
          field "baseBranch" (str "main") (
            field "allowlist" (arr (cons (int (pos 7)) (cons (int (pos 9)) nil))) (
              field "cursor" (int (pos cursor))
                (field "issues" (arr (cons (row 7 first) (cons (row 9 second) nil))) end)))))))

abbrev rows : String → String → List Value
rows first second = row 7 first ∷ row 9 second ∷ []

abbrev created_disk : Disk
created_disk = (batch_create faultless same_path create_args empty_disk).1

abbrev bail_first : BatchUpdateArgs
bail_first = update_args 7 "pending" "bailed"

abbrev start_second : BatchUpdateArgs
start_second = update_args 9 "pending" "active"

abbrev bailed_disk : Disk
bailed_disk = (batch_update faultless same_path bail_first created_disk).1

abbrev started_disk : Disk
started_disk = (batch_update faultless same_path start_second bailed_disk).1

bailed_lem :
    (batch_update faultless same_path bail_first created_disk).0
    ≡ ok (batch_fields 1 "bailed" "pending")
unfolding batch_run validate_batch_run disk_run is_hex_run
bailed_lem = refl

started_lem :
    (batch_update faultless same_path start_second bailed_disk).0
    ≡ ok (batch_fields 1 "bailed" "active")
unfolding batch_run validate_batch_run disk_run is_hex_run
started_lem = refl

bailed_shows : batch_show batch_file bailed_disk ≡ ok (batch_fields 1 "bailed" "pending")
unfolding batch_run validate_batch_run disk_run is_hex_run
bailed_shows = refl

started_shows : batch_show batch_file started_disk ≡ ok (batch_fields 1 "bailed" "active")
unfolding batch_run validate_batch_run disk_run is_hex_run
started_shows = refl

bailed_rows : ShowsRows batch_file bailed_disk 1 (rows "bailed" "pending")
bailed_rows = (
  batch_fields 1 "bailed" "pending",
  bailed_shows,
  record { cursor_held = refl; issues = _; issues_held = refl; rows_held = refl },
)

started_rows : ShowsRows batch_file started_disk 1 (rows "bailed" "active")
started_rows = (
  batch_fields 1 "bailed" "active",
  started_shows,
  record { cursor_held = refl; issues = _; issues_held = refl; rows_held = refl },
)

settled_row_stays_example :
    (1 ≤ 1) × (get_elem? (rows "bailed" "active") 0 ≡ get_elem? (rows "bailed" "pending") 0)
settled_row_stays_example =
    settled_row_stays {faults = faultless} {resolve = same_path} 0 bailed_rows
      (then_update start_second _ refl started_lem done) started_rows (omega arith)

shown_row-Fits_example :
    (status : Value) × (row_status (row 9 "active") ≡ ok status) × Fits 1 1 status
shown_row-Fits_example =
    shown_row-Fits batch_file started_disk 1 (rows "bailed" "active") 1 (row 9 "active")
      started_rows refl

batch_update-Stepped_example :
    (fs : Fields) × (batch_show batch_file created_disk ≡ ok fs)
    × Stepped same_path bail_first fs (batch_fields 1 "bailed" "pending")
    × (batch_show batch_file bailed_disk ≡ ok (batch_fields 1 "bailed" "pending"))
batch_update-Stepped_example =
    batch_update-Stepped faultless same_path bail_first created_disk
      (batch_fields 1 "bailed" "pending") bailed_lem

-- The first issue is no longer at the cursor.
late_lem :
    (batch_update faultless same_path bail_first bailed_disk).0
    ≡ err (state_error ("batch update may target only the current cursor issue" ∷ []))
unfolding batch_run validate_batch_run disk_run is_hex_run
late_lem = refl
