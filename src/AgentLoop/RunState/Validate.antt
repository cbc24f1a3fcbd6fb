-- ===== src/AgentLoop/RunState/Validate.antt =====
-- `_validate` of agent-loop-state.py, a paragraph at a time and in the source's order.
pub mod Passed
use codex_platform.Base.{
  String, Bool, true, false, not, ◌&&◌, ◌||◌, List, [], ◌∷◌, ◌++◌, Option, none, some, str_eq,
  if◌then◌else◌, any,
}
use codex_platform.Base.Outcome.{ok, err, reject, ◌>>=◌, ◌>>◌}
use codex_platform.Base.Value.{
  ℤ, pos, ℤ_eq, Value, null, Fields, lookup, keys, same_set, type_int, eq_str,
}
use codex_platform.AgentLoop.Failure.{
  Checked, state_error, item, for_each, is_filled_text, is_positive, at_least, at_most, is_digest,
  path_is_absolute, member,
}
use codex_platform.AgentLoop.RunState.Fields.{phases, required, legacy_extended, extended, budget}

abbrev pub has_key : String → Fields → Bool
has_key k fs = elim (lookup k fs) [ none ↦ false | some _ ↦ true ]

abbrev pub is_null : Value → Bool
is_null null = true
is_null _ = false

known_keys : Fields → Bool
known_keys fs = any (same_set (keys fs)) (
    required
    ∷ legacy_extended
    ∷ extended
    ∷ (required ++ budget)
    ∷ (legacy_extended ++ budget)
    ∷ (extended ++ budget)
    ∷ [])

pub check_keys : Fields → Checked (Unit {0})
check_keys fs =
    reject (not (known_keys fs)) (state_error ("run state has missing or unknown fields" ∷ []))

-- `type(value) is int and value == n`
abbrev is_int_of : ℤ → Value → Bool
is_int_of n v = elim (type_int v) [ none ↦ false | some m ↦ ℤ_eq m n ]

pub check_version : Fields → Checked (Unit {0})
check_version fs = do
  v ← item fs "version"
  reject (not (is_int_of (pos 1) v)) (state_error ("unsupported run state version" ∷ []))

check_text : Fields → String → Checked (Unit {0})
check_text fs key = do
  v ← item fs key
  reject (not (is_filled_text v))
      (state_error ("run state " ∷ key ∷ " must be a non-empty string" ∷ []))

pub check_texts : Fields → Checked (Unit {0})
check_texts fs =
    for_each (check_text fs)
      ("runId" ∷ "repo" ∷ "baseBranch" ∷ "branch" ∷ "worktree" ∷ "logDir" ∷ "prUrl" ∷ [])

check_number : Fields → String → Checked (Unit {0})
check_number fs key = do
  v ← item fs key
  reject (not (is_positive v))
      (state_error ("run state " ∷ key ∷ " must be a positive integer" ∷ []))

pub check_numbers : Fields → Checked (Unit {0})
check_numbers fs = for_each (check_number fs) ("issue" ∷ "prNumber" ∷ "round" ∷ [])

-- `type(value) is int and 1 <= value <= 4`
abbrev pub is_round_limit : Value → Bool
is_round_limit v = elim (type_int v) [ none ↦ false | some n ↦ at_least 1 n && at_most 4 n ]

pub check_budget_values : Fields → Checked (Unit {0})
check_budget_values fs = do
  deadline ← item fs "reviewDeadlineEpoch"
  reject (not (is_positive deadline))
      (state_error ("run state reviewDeadlineEpoch must be a positive integer" ∷ []))
  rounds ← item fs "reviewMaxRounds"
  reject (not (is_round_limit rounds))
      (state_error ("run state reviewMaxRounds must be between 1 and 4" ∷ []))

pub check_budget : Fields → Checked (Unit {0})
check_budget fs = if has_key "reviewDeadlineEpoch" fs then check_budget_values fs else ok tt

check_sha : Fields → String → Checked (Unit {0})
check_sha fs key = do
  v ← item fs key
  reject (not (is_digest 40 v))
      (state_error ("run state " ∷ key ∷ " must be a full lowercase commit SHA" ∷ []))

pub check_shas : Fields → Checked (Unit {0})
check_shas fs = for_each (check_sha fs) ("baseSha" ∷ "headSha" ∷ [])

pub check_phase : Fields → Checked (Unit {0})
check_phase fs = do
  phase ← item fs "phase"
  known ← member phase phases
  reject (not known) (state_error ("run state phase is invalid" ∷ []))

check_engine_value : Bool → Value → Checked (Unit {0})
check_engine_value true engine = do
  known ← member engine ("codex" ∷ "claude" ∷ [])
  reject (not known) (state_error ("reviewing run state requires a current review engine" ∷ []))
check_engine_value false engine =
    reject (not (is_null engine))
      (state_error ("only reviewing run state may name a current review engine" ∷ []))

pub check_engine : Fields → Checked (Unit {0})
check_engine fs = do
  engine ← item fs "reviewEngine"
  phase ← item fs "phase"
  check_engine_value (eq_str phase "reviewing") engine

check_result : Fields → String → Checked (Unit {0})
check_result fs key = do
  digest ← item fs key
  reject (not (is_null digest) && not (is_digest 64 digest))
      (state_error ("run state " ∷ key ∷ " must be null or a lowercase SHA-256 digest" ∷ []))

abbrev pub result_keys : List String
result_keys = "codexResultSha256" ∷ "claudeResultSha256" ∷ []

pub check_results : Fields → Checked (Unit {0})
check_results fs = for_each (check_result fs) result_keys

check_digest : Fields → String → Checked (Unit {0})
check_digest fs key = do
  v ← item fs key
  reject (not (is_digest 64 v))
      (state_error ("run state " ∷ key ∷ " must be a lowercase SHA-256 digest" ∷ []))

pub check_digests : Fields → Checked (Unit {0})
check_digests fs = for_each (check_digest fs) ("issueTitleSha256" ∷ "issueBodySha256" ∷ [])

pub check_git_config : Fields → Checked (Unit {0})
check_git_config fs =
    if has_key "gitConfigSha256" fs then check_digest fs "gitConfigSha256" else ok tt

pub check_project_values : Fields → Checked (Unit {0})
check_project_values fs = do
  check_text fs "projectDir"
  dir ← item fs "projectDir"
  absolute ← path_is_absolute dir
  reject (not absolute) (state_error ("run state projectDir must be absolute" ∷ []))
  check_digest fs "projectGitConfigSha256"

pub check_project : Fields → Checked (Unit {0})
check_project fs = if has_key "projectDir" fs then check_project_values fs else ok tt

-- `any(value[key] is None for key in result_keys)`, with the first null ending the search.
lacks_result : Fields → Checked Bool
lacks_result fs = do
  codex ← item fs "codexResultSha256"
  if is_null codex then ok true else do claude ← item fs "claudeResultSha256"; ok (is_null claude)

check_converged_values : Bool → Fields → Checked (Unit {0})
check_converged_values false fs = ok tt
check_converged_values true fs = do
  lacking ← lacks_result fs
  reject lacking (
      state_error
        ("converged, finalizing, or finalized run state requires both review result hashes" ∷ []))

abbrev pub late_phases : List String
late_phases = "converged" ∷ "finalizing" ∷ "finalized" ∷ []

pub check_converged : Fields → Checked (Unit {0})
check_converged fs = do
  phase ← item fs "phase"
  late ← member phase late_phases
  check_converged_values late fs

pub check_paths : Fields → Checked (Unit {0})
check_paths fs = do
  worktree ← item fs "worktree"
  log_dir ← item fs "logDir"
  worktree_absolute ← path_is_absolute worktree
  log_dir_absolute ← path_is_absolute log_dir
  reject (not worktree_absolute || not log_dir_absolute)
      (state_error ("run state paths must be absolute" ∷ []))

unfoldable pub validate : Fields → Checked (Unit {0})
validate fs = do
  check_keys fs
  check_version fs
  check_texts fs
  check_numbers fs
  check_budget fs
  check_shas fs
  check_phase fs
  check_engine fs
  check_results fs
  check_digests fs
  check_git_config fs
  check_project fs
  check_converged fs
  check_paths fs

-- Names what a run of `validate` opens.
unfoldable pub validate_run : Unit {0}
unfolding validate known_keys check_keys check_version check_texts check_numbers check_budget
    check_shas check_phase check_engine check_results check_digests check_git_config check_project
    check_converged check_paths check_text check_number check_budget_values check_sha
    check_engine_value check_result check_digest check_project_values lacks_result
    check_converged_values
validate_run = tt
