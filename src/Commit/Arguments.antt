-- ===== src/Commit/Arguments.antt =====
-- The first half of `main` of create-signed-commit.py: the checks of the invocation, the files to
-- commit and the pinned base commit.
pub mod Gated
use codex_platform.Base.{
  ℕ, Bool, true, false, not, ◌&&◌, ◌||◌, List, [], ◌∷◌, Option, none, some, Text, text_eq,
  if◌then◌else◌,
}
use codex_platform.Base.Outcome.{Outcome, ok, err, reject, or_raise, ◌>>=◌, ◌>>◌}
use codex_platform.AgentLoop.Failure.{is_hex_run}
use codex_platform.Commit.Status.{StatusChanges, BadManifest, parse_status_bytes}
use codex_platform.Commit.Payload.{Config, Rejection, validate_payload_paths}
use codex_platform.Commit.Path.{is_nil}
use codex_platform.Commit.Session.{Exit, failure, misuse}
use codex_platform.Commit.Message.{strip}

-- The options, with what is found where they point: a path that is given is a file, with its text,
-- or is not one (`some none`). `config_inside` tells that the config resolves below the payload
-- tree, and `status` is the output of git, where git does not fail.
pub record Args : Type 0 where
  pub token : Option Text
  pub base_branch : Text
  pub new_branch : Text
  pub message : Text
  pub app_slug : Option Text
  pub payload_dir : Bool
  pub consumer_dir : Bool
  pub manifest : Option (Option Text)
  pub config : Option Config
  pub config_inside : Bool
  pub config_destination : Option Text
  pub base_sha_file : Option (Option Text)
  pub expected_base_sha : Option Text
  pub status : Option Text

-- `not text`
pub is_missing : Option Text → Bool
is_missing none = true
is_missing (some s) = text_eq s []

abbrev pub is_given {ℓ} : {A : Type ℓ} → Option A → Bool
is_given none = false
is_given (some a) = true

abbrev pub payload_mode : Args → Bool
payload_mode args = args.payload_dir || is_given args.manifest

-- `payload_mode == consumer_mode`
abbrev pub same_mode : Bool → Bool → Bool
same_mode true b = b
same_mode false b = not b

pub is_half_configured : Args → Bool
is_half_configured args =
    not args.payload_dir
    || not (is_given args.manifest)
    || not (is_given args.config)
    || is_missing args.config_destination

pub has_pin : Args → Bool
has_pin args = is_given args.base_sha_file || is_given args.expected_base_sha

-- The invocations that end with code 2.
pub check_arguments : Args → Outcome Exit (Unit {0})
check_arguments args = do
  reject (is_missing args.token) misuse
  reject (text_eq args.new_branch args.base_branch) misuse
  reject (same_mode (payload_mode args) args.consumer_dir) misuse
  reject (payload_mode args && is_half_configured args) misuse
  reject (is_given args.base_sha_file && is_given args.expected_base_sha) misuse
  reject (payload_mode args && not (has_pin args)) misuse

-- `except ValueError: return 1`
pub exit_one {ℓ} : {E : Type 0} {A : Type ℓ} → Outcome E A → Outcome Exit A
exit_one (ok a) = ok a
exit_one (err e) = err failure

-- In consumer mode the list comes from git.
pub status_changes : Args → Outcome Exit StatusChanges
status_changes args = do raw ← or_raise failure args.status; exit_one (parse_status_bytes raw)

-- A pin that is given is a commit id, 40 lower-case hexadecimal digits.
pub commit_id : Text → Outcome Exit (Option Text)
commit_id sha = do reject (not (is_hex_run 40 sha)) failure; ok (some sha)

pub pin_from : Option (Option Text) → Option Text → Outcome Exit (Option Text)
pin_from (some file) expected = or_raise failure file >>= (λ raw. commit_id (strip raw))
pin_from none (some sha) = commit_id (strip sha)
pin_from none none = ok none

pub has_no_changes : StatusChanges → Bool
has_no_changes changes = is_nil changes.upserts && is_nil changes.deletes

abbrev pub Prepared : Type 0
Prepared = Option (StatusChanges × Option Text)

abbrev pub beside : StatusChanges → Option Text → Outcome Exit Prepared
beside changes pin = ok (some (changes, pin))

pub with_pin : Args → StatusChanges → Outcome Exit Prepared
with_pin args changes =
    if has_no_changes changes
    then ok none
    else pin_from args.base_sha_file args.expected_base_sha >>= beside changes

module _ (is_printable : Text → Bool) where
  -- The manifest, read and validated.
  pub admitted_changes : Option Text → Config → Text → Outcome Exit StatusChanges
  admitted_changes manifest config destination = do
    raw ← or_raise failure manifest
    changes ← exit_one (parse_status_bytes raw)
    exit_one (validate_payload_paths is_printable changes config destination)

  -- A missing option fails an assertion, which the checks before rule out.
  pub payload_changes : Args → Outcome Exit StatusChanges
  payload_changes args = do
    manifest ← or_raise failure args.manifest
    config ← or_raise failure args.config
    destination ← or_raise failure args.config_destination
    reject args.config_inside misuse
    admitted_changes manifest config destination

  pub changes_of : Args → Outcome Exit StatusChanges
  changes_of args = if payload_mode args then payload_changes args else status_changes args

  -- What the calls start from: nothing, where there is nothing to commit.
  pub prepare : Args → Outcome Exit Prepared
  prepare args = do check_arguments args; changes ← changes_of args; with_pin args changes

-- Names what a run of `prepare` opens.
unfoldable pub prepare_run : Unit {0}
unfolding is_missing is_half_configured has_pin check_arguments exit_one admitted_changes
    payload_changes status_changes changes_of commit_id pin_from has_no_changes with_pin prepare
    is_hex_run
prepare_run = tt
