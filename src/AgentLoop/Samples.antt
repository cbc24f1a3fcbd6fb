-- ===== src/AgentLoop/Samples.antt =====
-- Runs of the state commands on concrete states, and the theorems at these runs.
use codex_platform.Base.{String, ◌≡◌, refl, true, false, [], ◌∷◌, Option, none, some, str_eq, ◌⊎◌}
use codex_platform.Base.Outcome.{ok, err}
use codex_platform.Base.Value.{pos, Value, null, int, str, Fields, end, field, lookup}
use codex_platform.AgentLoop.Failure.{Failure, state_error, os_error, is_digest, is_hex_run}
use codex_platform.AgentLoop.Disk.{Disk, Faults, File, disk_run}
use codex_platform.AgentLoop.Disk.Write.{Undone}
use codex_platform.AgentLoop.RunState.Validate.{validate, validate_run}
use codex_platform.AgentLoop.RunState.Validate.Passed.{engine_of_phase}
use codex_platform.AgentLoop.RunState.Commands.{
  CreateArgs, create, UpdateArgs, update, show, commands_run, created_fields, updated_fields,
}
use codex_platform.AgentLoop.RunState.Commands.Writes.{
  update_reads_back, update_atomic, create_reads_back, create_keeps_old,
}
use codex_platform.AgentLoop.RunState.Commands.Update.{update_keeps}
use codex_platform.AgentLoop.RunState.Commands.Reviews.{
  done, then_update, review_steps, late_reviews,
}

abbrev faultless : Faults
faultless = record {
  making_dir = false;
  opening_dir = false;
  making_temporary = false;
  staging = false;
  placing = false;
  syncing_dir = false;
}

abbrev empty_disk : Disk
empty_disk = record {
  files = λ path. none;
  parent = λ path. "/state";
  parent_is_link = λ path. false;
  dir_modes = λ dir. none;
  leftovers = [];
}

abbrev state_file : String
state_file = "/state/run.json"

abbrev sha : String
sha = "0123456789012345678901234567890123456789"

abbrev digest_a : String
digest_a = "aaaaaaaaaaaaaaaaaaaaaaaaaaaaaaaaaaaaaaaaaaaaaaaaaaaaaaaaaaaaaaaa"

abbrev digest_b : String
digest_b = "bbbbbbbbbbbbbbbbbbbbbbbbbbbbbbbbbbbbbbbbbbbbbbbbbbbbbbbbbbbbbbbb"

abbrev create_args : CreateArgs
create_args = record {
  file = state_file;
  run_id = "run-1";
  repo = "owner/name";
  issue = pos 7;
  issue_title_sha256 = digest_a;
  issue_body_sha256 = digest_b;
  git_config_sha256 = none;
  project_dir = none;
  project_git_config_sha256 = none;
  base_branch = "main";
  branch = "issue-7";
  worktree = "/work";
  log_dir = "/logs";
  pr = pos 12;
  pr_url = "https://host/pr/12";
  base_sha = sha;
  head_sha = sha;
  review_deadline_epoch = none;
  review_max_rounds = none;
}

abbrev update_to : String → Option String → Option String → Option String → UpdateArgs
update_to phase engine codex claude = record {
  file = state_file;
  phase = phase;
  round = none;
  review_engine = engine;
  base_sha = none;
  head_sha = none;
  codex_result_sha256 = codex;
  claude_result_sha256 = claude;
}

abbrev run_fields : String → Value → Value → Value → Fields
run_fields phase engine codex claude = field "version" (int (pos 1)) (
    field "runId" (str "run-1") (
      field "repo" (str "owner/name") (
        field "issue" (int (pos 7)) (
          field "issueTitleSha256" (str digest_a) (
            field "issueBodySha256" (str digest_b) (
              field "baseBranch" (str "main") (
                field "branch" (str "issue-7") (
                  field "worktree" (str "/work") (
                    field "logDir" (str "/logs") (
                      field "prNumber" (int (pos 12)) (
                        field "prUrl" (str "https://host/pr/12") (
                          field "baseSha" (str sha) (
                            field "headSha" (str sha) (
                              field "phase" (str phase) (
                                field "round" (int (pos 1)) (
                                  field "reviewEngine" engine (
                                    field "codexResultSha256" codex
                                      (field "claudeResultSha256" claude end))))))))))))))))))

abbrev same_path : String → String
same_path path = path

abbrev created_disk : Disk
created_disk = (create faultless same_path create_args empty_disk).1

abbrev to_review : UpdateArgs
to_review = update_to "reviewing" (some "codex") none none

abbrev to_converged : UpdateArgs
to_converged = update_to "converged" none (some digest_a) (some digest_b)

abbrev reviewing_disk : Disk
reviewing_disk = (update faultless to_review created_disk).1

abbrev converged_disk : Disk
converged_disk = (update faultless to_converged reviewing_disk).1

created_lem :
    (create faultless same_path create_args empty_disk).0
    ≡ ok (run_fields "draft-open" null null null)
unfolding commands_run validate_run disk_run is_hex_run
created_lem = refl

reviewing_lem :
    (update faultless to_review created_disk).0
    ≡ ok (run_fields "reviewing" (str "codex") null null)
unfolding commands_run validate_run disk_run is_hex_run
reviewing_lem = refl

converged_lem :
    (update faultless to_converged reviewing_disk).0
    ≡ ok (run_fields "converged" null (str digest_a) (str digest_b))
unfolding commands_run validate_run disk_run is_hex_run
converged_lem = refl

created_shows : show state_file created_disk ≡ ok (run_fields "draft-open" null null null)
unfolding commands_run validate_run disk_run is_hex_run
created_shows = refl

converged_shows :
    show state_file converged_disk ≡ ok (run_fields "converged" null (str digest_a) (str digest_b))
unfolding commands_run validate_run disk_run is_hex_run
converged_shows = refl

converged_valid : validate (run_fields "converged" null (str digest_a) (str digest_b)) ≡ ok tt
unfolding validate_run is_hex_run
converged_valid = refl

-- The state after two updates is converged with the digests of the second.
late_reviews_example :
    (c : String) × (k : String) × (review_steps (to_review ∷ to_converged ∷ []) none ≡ some (c, k))
    × (is_digest 64 (str c) ≡ true)
    × (is_digest 64 (str k) ≡ true)
late_reviews_example =
    late_reviews {faults = faultless} {file = state_file}
      (run_fields "converged" null (str digest_a) (str digest_b)) "converged"
      (
        run_fields "draft-open" null null null,
        created_shows,
        record { codex = refl; claude = refl },
      )
      (then_update to_review _ refl reviewing_lem
        (then_update to_converged _ refl converged_lem done))
      converged_shows refl refl

update_reads_back_example :
    (updated_fields to_review created_disk ≡ ok (run_fields "reviewing" (str "codex") null null))
    × (validate (run_fields "reviewing" (str "codex") null null) ≡ ok tt)
    × (show state_file reviewing_disk ≡ ok (run_fields "reviewing" (str "codex") null null))
update_reads_back_example = update_reads_back faultless to_review created_disk _ reviewing_lem

-- Converging without the digests of both reviews raises.
abbrev unfounded : UpdateArgs
unfounded = update_to "converged" none (some digest_a) none

unfounded_lem :
    (update faultless unfounded reviewing_disk).0
    ≡ err (state_error ("converged state requires both review result hashes" ∷ []))
unfolding commands_run validate_run disk_run is_hex_run
unfounded_lem = refl

-- The temporary file cannot be filled.
abbrev full_disk : Faults
full_disk = record faultless { staging = true }

full_lem : (update full_disk to_review created_disk).0 ≡ err os_error
unfolding commands_run validate_run disk_run is_hex_run
full_lem = refl

update_atomic_example : Undone state_file created_disk (update full_disk to_review created_disk).1
update_atomic_example = update_atomic full_disk to_review created_disk _ refl full_lem

create_reads_back_example :
    (created_fields same_path create_args ≡ ok (run_fields "draft-open" null null null))
    × (validate (run_fields "draft-open" null null null) ≡ ok tt)
    × (show state_file created_disk ≡ ok (run_fields "draft-open" null null null))
create_reads_back_example =
    create_reads_back faultless same_path create_args empty_disk _ created_lem

abbrev shared_file : File
shared_file = record { regular = true; owned = false; mode = 0o644; content = none }

abbrev shared_disk : Disk
shared_disk = record {
  files = λ path. some shared_file;
  parent = λ path. "/state";
  parent_is_link = λ path. false;
  dir_modes = λ dir. none;
  leftovers = [];
}

create_keeps_old_example :
    ((e : Failure) × ((create faultless same_path create_args shared_disk).0 ≡ err e))
    × Undone state_file shared_disk (create faultless same_path create_args shared_disk).1
create_keeps_old_example =
    create_keeps_old faultless same_path create_args shared_disk shared_file refl

update_keeps_example :
    (old : Fields) × (show state_file reviewing_disk ≡ ok old)
    × (lookup "branch" (run_fields "converged" null (str digest_a) (str digest_b))
        ≡ lookup "branch" old)
update_keeps_example =
    update_keeps faultless to_converged reviewing_disk _ converged_lem "branch" refl

engine_of_phase_example :
    ((str_eq "converged" "reviewing" ≡ true) × ((null ≡ str "codex") ⊎ (null ≡ str "claude")))
    ⊎ ((str_eq "converged" "reviewing" ≡ false) × (◌≡◌ {A = Value} null null))
engine_of_phase_example =
    engine_of_phase (run_fields "converged" null (str digest_a) (str digest_b)) converged_valid refl
      refl
