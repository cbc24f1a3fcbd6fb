-- ===== src/Commit/Payload.antt =====
-- `validate_payload_paths` of create-signed-commit.py: the gate that a manifest passes in payload
-- mode. The consumer's config comes as the document that the YAML parser gives.
pub mod Admitted
use codex_platform.Base.{
  String, Bool, true, false, not, ◌&&◌, ◌||◌, List, [], ◌∷◌, map, Option, none, some, Text, codes,
  text_eq, elem, str_eq, all,
}
use codex_platform.Base.Outcome.{Outcome, ok, err, reject, or_raise, ◌>>=◌, ◌>>◌}
use codex_platform.Base.Value.{
  Value, null, bool, int, real, str, arr, obj, pos, Fields, end, nil, lookup, ℤ_eq,
}
use codex_platform.Sync.Glob.{Piece, exact, path_matches_any}
use codex_platform.Sync.Render.Collapse.{has_text}
use codex_platform.Sync.Fields.{text_list}
use codex_platform.Commit.Status.{StatusChanges}
use codex_platform.Commit.Policy.{glob_to_regex, is_sensitive_write_dest, is_sensitive_delete_dest}
use codex_platform.Commit.Path.{canonical_manifest_path}

-- The messages of the ValueError.
pub data Rejection : Type 0 where
  missing_config invalid_config invalid_allowlist invalid_skip_list invalid_grants : Rejection
  unsafe_destination unsafe_path disallowed_path skipped_path config_self_write : Rejection
  unconsented_write guarded_delete duplicate_path : Rejection

-- The file of `--config`; `document` is what its text parses to.
pub record Config : Type 0 where
  pub is_file : Bool
  pub is_symlink : Bool
  pub document : Value

-- `not value`
pub is_falsy : Value → Bool
is_falsy null = true
is_falsy (bool b) = not b
is_falsy (int n) = ℤ_eq n (pos 0)
is_falsy (real (some n)) = ℤ_eq n (pos 0)
is_falsy (str s) = str_eq s ""
is_falsy (arr nil) = true
is_falsy (obj end) = true
is_falsy _ = false

-- `document or {}`, which has to be a mapping.
pub as_mapping : Value → Outcome Rejection Fields
as_mapping (obj fs) = ok fs
as_mapping v = elim (is_falsy v) [ true ↦ ok end | false ↦ err invalid_config ]

-- What the config grants.
pub record Gate : Type 0 where
  pub allowed : List (List Piece)
  pub skipped : List Text
  pub granted : List Text
  pub config_store : Text

pub texts_of : Rejection → Value → Outcome Rejection (List Text)
texts_of e v = or_raise e (text_list v) >>= (λ ss. ok (map codes ss))

-- At least one pattern, and none that is empty.
pub filled_patterns : List Text → Outcome Rejection (List (List Piece))
filled_patterns [] = err invalid_allowlist
filled_patterns (p ∷ ps) = do
  reject (not (all (λ s. not (text_eq s [])) (p ∷ ps))) invalid_allowlist
  ok (map glob_to_regex (p ∷ ps))

pub read_allowed : Option Value → Outcome Rejection (List (List Piece))
read_allowed none = err invalid_allowlist
read_allowed (some v) = texts_of invalid_allowlist v >>= filled_patterns

pub read_skipped : Option Value → Outcome Rejection (List Text)
read_skipped none = ok []
read_skipped (some null) = ok []
read_skipped (some v) = texts_of invalid_skip_list v

module _ (is_printable : Text → Bool) where
  pub canonical_entry : Text → Option Text
  canonical_entry entry = elim (elem b'*' entry || elem b'?' entry) [
    | true ↦ none
    | false ↦ canonical_manifest_path is_printable entry
  ]

  -- The loop over the entries of `allow_sensitive_writes`.
  pub grants : List Text → Outcome Rejection (List Text)
  grants [] = ok []
  grants (entry ∷ entries) = do
    path ← or_raise invalid_grants (canonical_entry entry)
    reject (not (is_sensitive_write_dest path)) invalid_grants
    rest ← grants entries
    ok (path ∷ rest)

  -- An absent list grants nothing; a null is an error.
  pub read_grants : Option Value → Outcome Rejection (List Text)
  read_grants none = ok []
  read_grants (some null) = err invalid_grants
  read_grants (some v) = texts_of invalid_grants v >>= grants

  pub store_of : Text → Outcome Rejection Text
  store_of destination =
      or_raise unsafe_destination (canonical_manifest_path is_printable destination)

  pub read_gate : Config → Text → Outcome Rejection Gate
  read_gate config destination = do
    reject (not config.is_file || config.is_symlink) missing_config
    fields ← as_mapping config.document
    patterns ← read_allowed (lookup "allowed_destinations" fields)
    skips ← read_skipped (lookup "skip_targets" fields)
    consent ← read_grants (lookup "allow_sensitive_writes" fields)
    store ← store_of destination
    ok (record { allowed = patterns; skipped = skips; granted = consent; config_store = store })

  pub canonicalize_and_admit : Gate → Text → Outcome Rejection Text
  canonicalize_and_admit gate path = do
    canonical ← or_raise unsafe_path (canonical_manifest_path is_printable path)
    reject (not (path_matches_any exact canonical gate.allowed)) disallowed_path
    reject (has_text canonical gate.skipped) skipped_path
    ok canonical

  -- The two loops: the paths that are written, and then those that are deleted.
  pub admit_upserts : Gate → List Text → Outcome Rejection (List Text)
  admit_upserts gate [] = ok []
  admit_upserts gate (path ∷ paths) = do
    canonical ← canonicalize_and_admit gate path
    reject (text_eq canonical gate.config_store) config_self_write
    reject (is_sensitive_write_dest canonical && not (has_text canonical gate.granted))
        unconsented_write
    upserted ← admit_upserts gate paths
    ok (canonical ∷ upserted)

  pub admit_deletes : Gate → List Text → List Text → Outcome Rejection (Unit {0})
  admit_deletes gate upserted [] = ok tt
  admit_deletes gate upserted (path ∷ paths) = do
    canonical ← canonicalize_and_admit gate path
    reject (is_sensitive_delete_dest canonical) guarded_delete
    reject (has_text canonical upserted) duplicate_path
    admit_deletes gate upserted paths

  pub validate_payload_paths : StatusChanges → Config → Text → Outcome Rejection StatusChanges
  validate_payload_paths changes config destination = do
    gate ← read_gate config destination
    upserted ← admit_upserts gate changes.upserts
    admit_deletes gate upserted changes.deletes
    ok changes

-- Names what a run of `validate_payload_paths` opens.
unfoldable pub payload_run : Unit {0}
unfolding is_falsy as_mapping texts_of filled_patterns read_allowed read_skipped canonical_entry
    grants read_grants store_of read_gate canonicalize_and_admit admit_upserts admit_deletes
    validate_payload_paths
payload_run = tt
