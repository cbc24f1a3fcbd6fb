-- ===== src/Lib.antt =====
-- A verification of the Python scripts of codex-platform: the engine that copies files of an
-- upstream repository into a consumer repository (scripts/sync-engine.py), the state files of
-- the agent loop (.codex/skills/agent-loop/scripts/agent-loop-state.py), the search for
-- descendants in .codex/skills/agent-loop/scripts/process-supervisor.py, the two scripts that
-- list issues for agents (.codex/skills/issues/scripts/ready.py and
-- .codex/skills/backlog-refinement/scripts/candidates.py), the maker of signed commits
-- (scripts/create-signed-commit.py), the records of local review runs
-- (.codex/skills/critique/scripts/local-review-handoff.py) and the lint of templates
-- (scripts/lint-collapse-sites.py).
--
-- The parts do not call each other. The agent loop takes issues from the ready queue and keeps
-- its progress in the state files; the sync engine distributes the scripts themselves,
-- create-signed-commit.py commits what the engine wrote and carries a copy of its policy, and
-- the lint checks the templates for lines that the engine would delete. What follows says which
-- file models which part.
-- - Base: Boolean tests, lists and text over native numbers, results of code that may raise
--   (Base/Outcome), and the values that the JSON and YAML parsers produce (Base/Value).
-- - AgentLoop/Failure and AgentLoop/Disk: StateError and the tests of single values,
--   `_read_state` (read_state) and `_atomic_write_state` (atomic_write_state). The disk is a map
--   from paths to files with their permission bits and parsed content, with the permissions of
--   the directories and the temporary files that are left behind; which system calls of a write
--   raise is an argument of each command.
-- - AgentLoop/RunState: `_validate` (Validate.validate, a definition for each of its
--   paragraphs), `_create`, `_update` and `_show` (Commands.create, update and show).
--   Commands/Reviews has the abstract state of the review results and its refinement.
-- - AgentLoop/Batch: `_validate_batch` (Validate.validate_batch), `_batch_create`,
--   `_batch_update` and `_batch_show` (Commands.batch_create, batch_update and batch_show).
--   Commands/Step has one update as a relation, Commands/History any number of them.
-- - Sync/Glob, Sync/Sensitive and Sync/Paths: `glob_to_regex` and `path_matches_any`, with the
--   compiled pattern as the list of its regular expression's pieces; the dialect of the patterns
--   as a relation (Glob/Dialect); the guarded destinations; `resolve_under` with what it asks of
--   `os.path.normpath`.
-- - Sync/Render: the placeholders of PLACEHOLDER_RE (Tokens), `drop_empty_placeholder_lines`
--   (Collapse) and `substitute` (Substitute).
-- - Sync/Host and Sync/Fields: `write_utf8`, `write_if_changed` and `prune_empty_parents` over a
--   file system that is a parameter; `parse_mode`, `parse_str_list` and
--   `parse_sensitive_write_allowlist`.
-- - Sync/Engine: `main`, in the order in which it works. Settings reads the two documents,
--   Target checks one entry, Plan has the guards of one round, Run the two passes before the
--   loop, the loop and `main`; Policy says what a run is permitted to change.
-- - Queue/Ready and Queue/Addressed: the loop, the order and the limit of ready.py, with
--   `parse_closing_keywords` and `fetch_addressed_numbers`.
-- - Queue/Candidates: `classify` of candidates.py; Queue/Candidates/Buckets has the buckets of
--   its `main` and the labels of the marker in RUBRIC.md.
-- - Supervisor: `_descendants` of process-supervisor.py; Search has the descendants as a
--   relation, Enough the fuel.
-- - Commit/Status, Commit/Policy, Commit/Path and Commit/Payload: `parse_status_bytes`, the copy
--   of the engine's patterns, `_canonical_manifest_path` with `posixpath.normpath`, and
--   `validate_payload_paths` on the parsed config. Status/Printed has the entries of git,
--   Policy/Parity the two policies side by side.
-- - Commit/Message, Commit/Session, Commit/Arguments and Commit/Publish: `with_signoff`; the
--   calls of the API with `github_api` and `github_api_optional`, where what GitHub answers is
--   any function of the calls made; `main` up to its first call (prepare) and from there
--   (publish). Publish/Permitted has the calls that a run is permitted, as a relation on the
--   calls before.
-- - Handoff/Comments, Handoff/Runs, Handoff/Passes, Handoff/Post and Handoff/Start:
--   `_issue_comments` and `_matching_body`, `_run_records` and `_run_end`, `_authorize_pass`,
--   `_post_issue_comment`, and `_start_run` and `_finish_run`. Passes/History has the comments
--   of a run as a relation, Start/Marked the comment of a start as it is read back.
-- - Lint/Patterns, Lint/Scan and Lint/Check: the regular expressions of lint-collapse-sites.py
--   as searches, `_scan_literal_lines` and `literal_content_lines`, and `check_source`, on the
--   placeholders of Sync/Render. Lint/Main has `main` on the parsed manifest.
--
-- The modules named Samples hold runs on concrete states and the theorems at these runs.
--
-- Loops are structural recursions over the lists that the source iterates over, but for the
-- search for descendants, which runs on fuel: one round for each process and one more is enough;
-- and the digits of a number, with fuel for as many as its value and one more. No machine-width
-- integer occurs. Python's integers are the type ℤ over native numbers where the source can meet
-- a negative one, and native numbers elsewhere.
--
-- Parameters: the file system of the sync engine (Sync/Host), `str.isprintable` and `str()` of
-- values that are neither text nor None, the resolution of paths in agent-loop-state.py, what
-- BLOCKER_RE and CLOSING_KEYWORD_RE of ready.py find in a text and what `str.splitlines`,
-- `str.lstrip` and `str.strip` do, the children of a process, what GitHub answers, the directory
-- that a commit's files come from, the comments that GitHub shows and what becomes of a post,
-- what the markers' expressions find in a comment, the digest of a review run, the word
-- characters of a regular expression, and `str.lower` and the files that the lint reads. Nothing
-- is assumed of them, but that the processes are finitely many where a search for descendants is
-- shown to end, that GitHub is up where a commit is shown to be made, and that the expression of
-- a run's marker finds the marker in the comment of a start where that comment is shown to be
-- read back.
--
-- Not modelled: what is printed on stdout and stderr, with the warnings of the sync engine;
-- argparse; the JSON and YAML parsers, whose values the model starts from; the file lock of the
-- batch commands, which makes each of them one step; system calls of the sync engine that raise;
-- an error when the temporary name of a state file is removed, and the directories that a write
-- makes above the file's own; digits beyond ASCII in `int(text, 8)`; the signals and the waiting
-- of process-supervisor.py, and changes of the processes during its search; the base64 of a blob
-- and the process that runs git or gh; the handoff comments of local-review-handoff.py
-- (post-handoff and show-handoff); digits of a list marker beyond ASCII in
-- lint-collapse-sites.py; and the remaining scripts: link.py, bail-report.py, config-doctor.py,
-- release-preflight.py, verify-published-package.py and the shell and JavaScript tools.
pub mod Base
pub mod AgentLoop
pub mod Sync
pub mod Queue
pub mod Supervisor
pub mod Commit
pub mod Handoff
pub mod Lint
