-- ===== src/AgentLoop/RunState/Commands.antt =====
-- The commands `create`, `update` and `show` of agent-loop-state.py on the run state.
pub mod Writes
pub mod Update
pub mod Reviews
use codex_platform.Base.{
  String, Bool, true, false, ◌||◌, List, [], ◌∷◌, Option, none, some, str_eq, if◌then◌else◌,
}
use codex_platform.Base.Outcome.{ok, err, ◌>>=◌, ◌>>◌}
use codex_platform.Base.Value.{ℤ, pos, Value, null, int, str, Fields, end, field, put, elem_str}
use codex_platform.AgentLoop.Failure.{Checked, fail}
use codex_platform.AgentLoop.Disk.{Disk, Faults, Ran, read_state, write_fields}
use codex_platform.AgentLoop.RunState.Validate.{validate}

-- `_read`
unfoldable pub read : Disk → String → Checked Fields
read disk path = read_state "run state" validate disk path

-- The parsed options of `create`.
pub record CreateArgs : Type 0 where
  pub file : String
  pub run_id : String
  pub repo : String
  pub issue : ℤ
  pub issue_title_sha256 : String
  pub issue_body_sha256 : String
  pub git_config_sha256 : Option String
  pub project_dir : Option String
  pub project_git_config_sha256 : Option String
  pub base_branch : String
  pub branch : String
  pub worktree : String
  pub log_dir : String
  pub pr : ℤ
  pub pr_url : String
  pub base_sha : String
  pub head_sha : String
  pub review_deadline_epoch : Option ℤ
  pub review_max_rounds : Option ℤ

-- `str(Path(text).resolve())`, which asks the file system.
abbrev pub Resolve : Type 0
Resolve = String → String

-- The dict display of `_create`.
initial_fields : Resolve → CreateArgs → Fields
initial_fields resolve args = field "version" (int (pos 1)) (
    field "runId" (str args.run_id) (
      field "repo" (str args.repo) (
        field "issue" (int args.issue) (
          field "issueTitleSha256" (str args.issue_title_sha256) (
            field "issueBodySha256" (str args.issue_body_sha256) (
              field "baseBranch" (str args.base_branch) (
                field "branch" (str args.branch) (
                  field "worktree" (str (resolve args.worktree)) (
                    field "logDir" (str (resolve args.log_dir)) (
                      field "prNumber" (int args.pr) (
                        field "prUrl" (str args.pr_url) (
                          field "baseSha" (str args.base_sha) (
                            field "headSha" (str args.head_sha) (
                              field "phase" (str "draft-open") (
                                field "round" (int (pos 1)) (
                                  field "reviewEngine" null (
                                    field "codexResultSha256" null
                                      (field "claudeResultSha256" null end))))))))))))))))))

with_git_config : Option String → Fields → Fields
with_git_config none fs = fs
with_git_config (some digest) fs = put "gitConfigSha256" (str digest) fs

with_project : Resolve → Option String → Option String → Fields → Checked Fields
with_project resolve (some dir) (some digest) fs =
    ok (put "projectGitConfigSha256" (str digest) (put "projectDir" (str (resolve dir)) fs))
with_project resolve none none fs = ok fs
with_project resolve _ _ fs =
    fail ("run project dir and project Git config digest must be provided together" ∷ [])

with_budget : Option ℤ → Option ℤ → Fields → Checked Fields
with_budget (some deadline) (some rounds) fs =
    ok (put "reviewMaxRounds" (int rounds) (put "reviewDeadlineEpoch" (int deadline) fs))
with_budget none none fs = ok fs
with_budget _ _ fs = fail ("review deadline and maximum rounds must be provided together" ∷ [])

pub created_fields : Resolve → CreateArgs → Checked Fields
created_fields resolve args = do
  project ←
      with_project resolve args.project_dir args.project_git_config_sha256
        (with_git_config args.git_config_sha256 (initial_fields resolve args))
  with_budget args.review_deadline_epoch args.review_max_rounds project

-- `_create` after its dict: `_atomic_write` with `replace=False`.
unfoldable pub create : Faults → Resolve → CreateArgs → Disk → Ran
create faults resolve args disk =
    write_fields faults "run state" validate args.file false disk (created_fields resolve args)

-- The parsed options of `update`.
pub record UpdateArgs : Type 0 where
  pub file : String
  pub phase : String
  pub round : Option ℤ
  pub review_engine : Option String
  pub base_sha : Option String
  pub head_sha : Option String
  pub codex_result_sha256 : Option String
  pub claude_result_sha256 : Option String

abbrev pub optional_text : Option String → Value
optional_text none = null
optional_text (some s) = str s

with_round : Option ℤ → Fields → Fields
with_round none fs = fs
with_round (some n) fs = put "round" (int n) fs

with_text : String → Option String → Fields → Fields
with_text key none fs = fs
with_text key (some s) fs = put key (str s) fs

-- `args.review_engine if args.phase == "reviewing" else None`
pub engine_value : UpdateArgs → Value
engine_value args = if str_eq args.phase "reviewing" then optional_text args.review_engine else null

-- The new values, up to the review results.
pub with_progress : UpdateArgs → Fields → Fields
with_progress args fs = with_text "headSha" args.head_sha (
    with_text "baseSha" args.base_sha (
      with_round args.round
        (put "reviewEngine" (engine_value args) (put "phase" (str args.phase) fs))))

pub put_results : Value → Value → Fields → Fields
put_results codex claude fs = put "claudeResultSha256" claude (put "codexResultSha256" codex fs)

converge : Option String → Option String → Fields → Checked Fields
converge (some codex) (some claude) fs = ok (put_results (str codex) (str claude) fs)
converge _ _ fs = fail ("converged state requires both review result hashes" ∷ [])

abbrev pub is_early : String → Bool
is_early phase = elem_str phase ("draft-open" ∷ "reviewing" ∷ [])

pub with_results : UpdateArgs → Fields → Checked Fields
with_results args fs =
    if is_early args.phase
    then ok (put_results null null fs)
    else if str_eq args.phase "converged"
    then converge args.codex_result_sha256 args.claude_result_sha256 fs
    else ok fs

pub updated_fields : UpdateArgs → Disk → Checked Fields
updated_fields args disk = do fs ← read disk args.file; with_results args (with_progress args fs)

unfoldable pub update : Faults → UpdateArgs → Disk → Ran
update faults args disk =
    write_fields faults "run state" validate args.file true disk (updated_fields args disk)

-- `show` prints what it reads.
abbrev pub show : String → Disk → Checked Fields
show file disk = read disk file

-- Names what a run of the commands opens.
unfoldable pub commands_run : Unit {0}
unfolding create update created_fields initial_fields with_git_config with_project with_budget
    updated_fields with_results with_progress converge put_results engine_value with_text with_round
    read
commands_run = tt
