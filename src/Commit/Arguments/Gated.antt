-- ===== src/Commit/Arguments/Gated.antt =====
-- On `main` of create-signed-commit.py up to its first call: what a run that goes on has checked.
use mathlib.Core.Path.{subst}
use codex_platform.Base.{
  ◌≡◌, refl, sym, ap, ◌∙◌, not-false, ◌||◌, Bool, true, false, not, ◌&&◌, Option, none, some, Text,
  text_eq, arith, Bool-cases, inl, inr,
}
use codex_platform.Base.Outcome.{
  Outcome, ok, err, reject, or_raise, ◌>>=◌, >>=-eq-ok, >>-eq-ok, reject-eq-ok, or_raise-eq-ok,
  ok_inj,
}
use codex_platform.Commit.Status.{StatusChanges, parse_status_bytes}
use codex_platform.Commit.Payload.{Config, Gate, read_gate, validate_payload_paths}
use codex_platform.AgentLoop.Failure.{is_hex_run}
use codex_platform.Commit.Session.{Exit, failure, misuse}
use codex_platform.Commit.Message.{strip}
use codex_platform.Commit.Payload.Admitted.{Admitted, validate-Admitted}
use codex_platform.Commit.Arguments.{
  Args, payload_mode, is_given, has_pin, check_arguments, exit_one, admitted_changes,
  payload_changes, changes_of, prepare, beside, is_half_configured, same_mode, is_missing, pin_from,
  has_no_changes, commit_id, with_pin,
}

-- What the gate of payload mode has let through, and the pin of its base.
pub record Gated (is_printable : Text → Bool) (args : Args) (changes : StatusChanges)
    (pin : Option Text) : Type 0 where
  pub config : Config
  pub destination : Text
  pub gate : Gate
  pub config_given : args.config ≡ some config
  pub destination_given : args.config_destination ≡ some destination
  pub gate_read : read_gate is_printable config destination ≡ ok gate
  pub outside : args.config_inside ≡ false
  pub admitted : Admitted is_printable gate changes
  pub sha : Text
  pub pinned : pin ≡ some sha
  pub pin_hex : is_hex_run 40 sha ≡ true

exit_one-eq-ok :
    {E A : Type 0} (outcome : Outcome E A) (a : A) → exit_one outcome ≡ ok a → outcome ≡ ok a
unfolding exit_one
exit_one-eq-ok (ok b) a h = cc
exit_one-eq-ok (err e) a h = cc

commit_id-hex :
    (sha : Text) (pin : Option Text)
    → commit_id sha ≡ ok pin
    → (pin ≡ some sha) × (is_hex_run 40 sha ≡ true)
unfolding commit_id
commit_id-hex sha pin h =
    let (hex, h1) = >>-eq-ok (reject (not (is_hex_run 40 sha)) failure) (ok (some sha)) h in
    (sym (ok_inj h1), not-false _ (reject-eq-ok _ _ hex))

pin_from-hex :
    (file : Option (Option Text)) (expected pin : Option Text)
    → (is_given file || is_given expected) ≡ true
    → pin_from file expected ≡ ok pin
    → (sha : Text) × (pin ≡ some sha) × (is_hex_run 40 sha ≡ true)
unfolding pin_from
pin_from-hex (some file) expected pin given h =
    let (raw, _, h1) = >>=-eq-ok (or_raise failure file) _ h in
    let (pinned, hex) = commit_id-hex (strip raw) pin h1 in (strip raw, pinned, hex)
pin_from-hex none (some sha) pin given h =
    let (pinned, hex) = commit_id-hex (strip sha) pin h in (strip sha, pinned, hex)
pin_from-hex none none pin given h = cc

pair-eq :
    {a c : StatusChanges} {b d : Option Text}
    → ◌≡◌ {A = Outcome Exit (Option (StatusChanges × Option Text))}
        (ok (some (a, b)))
        (ok (some (c, d)))
    → (a ≡ c) × (b ≡ d)
pair-eq h = (cc, cc)

with_pin-parts :
    (args : Args) (found changes : StatusChanges) (pin : Option Text)
    → with_pin args found ≡ ok (some (changes, pin))
    → (found ≡ changes) × (pin_from args.base_sha_file args.expected_base_sha ≡ ok pin)
unfolding with_pin
with_pin-parts args found changes pin h = elim (Bool-cases (has_no_changes found)) [
  | inl nothing ↦ absurd (cc (rw nothing at h))
  | inr something ↦ after (rw something at h)
]
  where
    after :
        (pin_from args.base_sha_file args.expected_base_sha >>= beside found)
          ≡ ok (some (changes, pin))
        → (found ≡ changes) × (pin_from args.base_sha_file args.expected_base_sha ≡ ok pin)
    after h =
        let (pinned, pin_read, h1) =
          >>=-eq-ok (pin_from args.base_sha_file args.expected_base_sha) _ h in
        let (same, same_pin) = pair-eq h1 in (same, pin_read ∙ ap ok same_pin)

prepare-parts :
    (is_printable : Text → Bool) (args : Args) (changes : StatusChanges) (pin : Option Text)
    → prepare is_printable args ≡ ok (some (changes, pin))
    → (check_arguments args ≡ ok tt)
      × (changes_of is_printable args ≡ ok changes)
      × (pin_from args.base_sha_file args.expected_base_sha ≡ ok pin)
unfolding prepare
prepare-parts is_printable args changes pin h =
    let (checked, h1) = >>-eq-ok (check_arguments args) _ h in
    let (found, changed, h2) = >>=-eq-ok (changes_of is_printable args) _ h1 in
    let (same, pin_read) = with_pin-parts args found changes pin h2 in
    (checked, changed ∙ ap ok same, pin_read)

pub prepare-differ :
    (is_printable : Text → Bool) (args : Args) (changes : StatusChanges) (pin : Option Text)
    → prepare is_printable args ≡ ok (some (changes, pin))
    → text_eq args.new_branch args.base_branch ≡ false
unfolding check_arguments
prepare-differ is_printable args changes pin h =
    let (checked, _, _) = prepare-parts is_printable args changes pin h in
    let (_, h1) = >>-eq-ok (reject (is_missing args.token) misuse) _ checked in
    let (other, _) = >>-eq-ok (reject (text_eq args.new_branch args.base_branch) misuse) _ h1 in
    reject-eq-ok _ misuse other

pin_needed : (mode pin : Bool) → (mode && not pin) ≡ false → mode ≡ true → pin ≡ true
pin_needed mode pin h on = ground arith

check-pin :
    (args : Args)
    → check_arguments args ≡ ok tt
    → payload_mode args ≡ true
    → (is_given args.base_sha_file || is_given args.expected_base_sha) ≡ true
unfolding check_arguments has_pin
check-pin args h mode =
    let (_, h1) = >>-eq-ok (reject (is_missing args.token) misuse) _ h in
    let (_, h2) = >>-eq-ok (reject (text_eq args.new_branch args.base_branch) misuse) _ h1 in
    let (_, h3) = >>-eq-ok (reject (same_mode (payload_mode args) args.consumer_dir) misuse) _ h2 in
    let (_, h4) = >>-eq-ok (reject (payload_mode args && is_half_configured args) misuse) _ h3 in
    let (_, h5) =
      >>-eq-ok (reject (is_given args.base_sha_file && is_given args.expected_base_sha) misuse) _
        h4 in
    pin_needed (payload_mode args) _ (reject-eq-ok _ misuse h5) mode

admitted_changes-Admitted :
    (is_printable : Text → Bool) (manifest : Option Text) (config : Config) (destination : Text)
    (changes : StatusChanges)
    → admitted_changes is_printable manifest config destination ≡ ok changes
    → (gate : Gate) × (read_gate is_printable config destination ≡ ok gate)
      × Admitted is_printable gate changes
unfolding admitted_changes
admitted_changes-Admitted is_printable manifest config destination changes h =
    let (raw, _, h1) = >>=-eq-ok (or_raise failure manifest) _ h in
    let (listed, _, h2) = >>=-eq-ok (exit_one (parse_status_bytes raw)) _ h1 in
    let (same, (gate, found, passed)) =
      validate-Admitted is_printable listed changes config destination (
        exit_one-eq-ok (validate_payload_paths is_printable listed config destination) changes
          h2) in
    (gate, found, subst (Admitted is_printable gate) (sym same) passed)

changes_of-payload :
    (is_printable : Text → Bool) (args : Args)
    → payload_mode args ≡ true
    → changes_of is_printable args ≡ payload_changes is_printable args
unfolding changes_of
changes_of-payload is_printable args mode = rw mode refl

pub prepare-Gated :
    (is_printable : Text → Bool) (args : Args) (changes : StatusChanges) (pin : Option Text)
    → payload_mode args ≡ true
    → prepare is_printable args ≡ ok (some (changes, pin))
    → Gated is_printable args changes pin
unfolding payload_changes
prepare-Gated is_printable args changes pin mode h =
    let (checked, changed, pin_read) = prepare-parts is_printable args changes pin h in
    let (sha, pinned, hex) =
      pin_from-hex args.base_sha_file args.expected_base_sha pin (check-pin args checked mode)
        pin_read in
    let (manifest, _, h1) =
      >>=-eq-ok (or_raise failure args.manifest) _
        (sym (changes_of-payload is_printable args mode) ∙ changed) in
    let (config, config_given, h2) = >>=-eq-ok (or_raise failure args.config) _ h1 in
    let (destination, destination_given, h3) =
      >>=-eq-ok (or_raise failure args.config_destination) _ h2 in
    let (outside, h4) = >>-eq-ok (reject args.config_inside misuse) _ h3 in
    let (gate, gate_read, passed) =
      admitted_changes-Admitted is_printable manifest config destination changes h4 in
    record {
      config = config;
      destination = destination;
      gate = gate;
      config_given = or_raise-eq-ok _ _ config_given;
      destination_given = or_raise-eq-ok _ _ destination_given;
      gate_read = gate_read;
      outside = reject-eq-ok _ misuse outside;
      admitted = passed;
      sha = sha;
      pinned = pinned;
      pin_hex = hex;
    }
