-- ===== src/Commit/Payload/Admitted.antt =====
-- On `validate_payload_paths` of create-signed-commit.py: the paths that the gate lets through.
use mathlib.Core.Path.{subst, ap₂}
use codex_platform.Base.{
  ◌≡◌, ap, sym, ◌∙◌, Bool, true, false, not, ◌&&◌, List, [], ◌∷◌, Text, text_eq, All, not-false,
}
use codex_platform.Base.Outcome.{ok, >>=-eq-ok, >>-eq-ok, reject-eq-ok, ok_inj, or_raise-eq-ok}
use codex_platform.Sync.Glob.{exact, path_matches_any}
use codex_platform.Sync.Render.Collapse.{has_text}
use codex_platform.Commit.Status.{StatusChanges}
use codex_platform.Commit.Policy.{is_sensitive_write_dest, is_sensitive_delete_dest}
use codex_platform.Commit.Path.Canonical.{IsCanonical, canonical_iff}
use codex_platform.Commit.Payload.{
  Config, Gate, read_gate, canonicalize_and_admit, admit_upserts, admit_deletes,
  validate_payload_paths, disallowed_path, skipped_path, config_self_write, unconsented_write,
  guarded_delete, duplicate_path,
}

module _ (is_printable : Text → Bool) (gate : Gate) where
  pub record Passes (path : Text) : Type 0 where
    pub canonical : IsCanonical is_printable path
    pub allowed : path_matches_any exact path gate.allowed ≡ true
    pub kept : has_text path gate.skipped ≡ false

  pub record MayUpsert (path : Text) : Type 0 where
    pub passes : Passes path
    pub no_config : text_eq path gate.config_store ≡ false
    pub consented : (is_sensitive_write_dest path && not (has_text path gate.granted)) ≡ false

  pub record MayDelete (upserts : List Text) (path : Text) : Type 0 where
    pub passes : Passes path
    pub no_guard : is_sensitive_delete_dest path ≡ false
    pub once : has_text path upserts ≡ false

  admit-Passes :
      (path canonical : Text)
      → canonicalize_and_admit is_printable gate path ≡ ok canonical
      → (canonical ≡ path) × Passes path
  unfolding canonicalize_and_admit
  admit-Passes path canonical h =
      let (c, found, h1) = >>=-eq-ok _ _ h in
      let (allowed, h2) = >>-eq-ok _ _ h1 in
      let (kept, h3) = >>-eq-ok _ _ h2 in
      let same = (canonical_iff is_printable path c).0 (or_raise-eq-ok _ _ found) in
      (
        sym (ok_inj h3) ∙ same.0,
        record {
          canonical = same.1;
          allowed =
              ap (λ s. path_matches_any exact s gate.allowed) (sym same.0)
              ∙ not-false _ (reject-eq-ok _ disallowed_path allowed);
          kept = ap (λ s. has_text s gate.skipped) (sym same.0) ∙ reject-eq-ok _ skipped_path kept;
        },
      )

  admit_upserts-All :
      (paths upserted : List Text)
      → admit_upserts is_printable gate paths ≡ ok upserted
      → (upserted ≡ paths) × All MayUpsert paths
  unfolding admit_upserts
  admit_upserts-All [] upserted h = (sym (ok_inj h), tt)
  admit_upserts-All (path ∷ paths) upserted h =
      let (c, admitted, h1) = >>=-eq-ok _ _ h in
      let (other, h2) = >>-eq-ok _ _ h1 in
      let (consented, h3) = >>-eq-ok _ _ h2 in
      let (rest, tail_ran, h4) = >>=-eq-ok _ _ h3 in
      let (e, passed) = admit-Passes path c admitted in
      let (es, all_passed) = admit_upserts-All paths rest tail_ran in
      (
        sym (ok_inj h4) ∙ ap₂ (λ a b. a ∷ b) e es,
        (
          record {
            passes = passed;
            no_config =
                ap (λ s. text_eq s gate.config_store) (sym e)
                ∙ reject-eq-ok _ config_self_write other;
            consented =
                ap (λ s. is_sensitive_write_dest s && not (has_text s gate.granted)) (sym e)
                ∙ reject-eq-ok _ unconsented_write consented;
          },
          all_passed,
        ),
      )

  admit_deletes-All :
      (upserted paths : List Text)
      → admit_deletes is_printable gate upserted paths ≡ ok tt
      → All (MayDelete upserted) paths
  unfolding admit_deletes
  admit_deletes-All upserted [] h = tt
  admit_deletes-All upserted (path ∷ paths) h =
      let (c, admitted, h1) = >>=-eq-ok _ _ h in
      let (no_guard, h2) = >>-eq-ok _ _ h1 in
      let (once, h3) = >>-eq-ok _ _ h2 in
      let (e, passed) = admit-Passes path c admitted in
      (
        record {
          passes = passed;
          no_guard = ap is_sensitive_delete_dest (sym e) ∙ reject-eq-ok _ guarded_delete no_guard;
          once = ap (λ s. has_text s upserted) (sym e) ∙ reject-eq-ok _ duplicate_path once;
        },
        admit_deletes-All upserted paths h3,
      )

-- What a gate lets through.
pub record Admitted (is_printable : Text → Bool) (gate : Gate) (changes : StatusChanges)
    : Type 0 where
  pub upserts : All (MayUpsert is_printable gate) changes.upserts
  pub deletes : All (MayDelete is_printable gate changes.upserts) changes.deletes

pub validate-Admitted :
    (is_printable : Text → Bool) (changes result : StatusChanges) (config : Config)
    (destination : Text)
    → validate_payload_paths is_printable changes config destination ≡ ok result
    → (result ≡ changes)
      × ((gate : Gate) × (read_gate is_printable config destination ≡ ok gate)
          × Admitted is_printable gate changes)
unfolding validate_payload_paths
validate-Admitted is_printable changes result config destination h =
    let (gate, found, h1) = >>=-eq-ok _ _ h in
    let (upserted, up, h2) = >>=-eq-ok _ _ h1 in
    let (deleted, h3) = >>-eq-ok _ _ h2 in
    let (e, ups) = admit_upserts-All is_printable gate changes.upserts upserted up in
    (
      sym (ok_inj h3),
      (
        gate,
        found,
        record {
          upserts = ups;
          deletes =
              admit_deletes-All is_printable gate changes.upserts changes.deletes
                (subst (λ l. admit_deletes is_printable gate l changes.deletes ≡ ok tt) e deleted);
        },
      ),
    )
