-- ===== src/Commit/Publish/Ends.antt =====
-- On `main` of create-signed-commit.py: the calls of a run and the code that it exits with.
use mathlib.Core.Path.{subst}
use codex_platform.Base.{
  ◌≡◌, refl, ap, sym, ◌∙◌, ◌⊎◌, inl, inr, Bool, true, false, not, List, [], ◌∷◌, ◌++◌, Option, none,
  some, Text, text_eq, All,
}
use codex_platform.Base.Outcome.{Outcome, ok, err, ok_inj}
use codex_platform.Base.Value.{Value, Fields}
use codex_platform.Commit.Status.{StatusChanges}
use codex_platform.Commit.Payload.{Gate, Config, read_gate}
use codex_platform.Commit.Payload.Admitted.{Passes, MayUpsert, MayDelete}
use codex_platform.Commit.Arguments.{Args, prepare, payload_mode, Prepared}
use codex_platform.Commit.Arguments.Gated.{prepare-differ, prepare-Gated}
use codex_platform.Commit.Session.{
  Exit, failure, misuse, Call, get_ref, get_commit, post_tree, post_ref, patch_ref, TreeEntry,
  Service, Session, return, lift, continue, refuse, github_api, github_api_optional, item,
}
use codex_platform.Commit.Session.Kept.{continue-eq-ok}
use codex_platform.Commit.Publish.{
  TreeDir, has_diverged, is_attested, point, attest, make_commit, make_tree, base_head, tree_of,
  publish, exit_code, ended, run_prepared, main,
}
use codex_platform.Commit.Publish.Permitted.{
  May, may_read_ref, may_read_commit, may_post_blob, may_post_tree, may_post_commit, may_point,
  AllMay, publish-AllMay, paths_of,
}

-- The call stands among those made.
abbrev pub Made : Call → List Call → Type 0
Made call [] = ⊥
Made call (c ∷ calls) = (c ≡ call) ⊎ Made call calls

-- A call that points a branch at a commit.
abbrev pub Points : Text → Value → Call → Type 0
Points branch sha call = (call ≡ post_ref branch sha) ⊎ (call ≡ patch_ref branch sha)

-- A run that makes calls has prepared changes, for a branch that is not the base.
pub record Committing (service : Service) (is_printable : Text → Bool) (args : Args) (dir : TreeDir)
    (calls : List Call) : Type 0 where
  pub changes : StatusChanges
  pub pin : Option Text
  pub prepared : prepare is_printable args ≡ ok (some (changes, pin))
  pub other_branch : text_eq args.new_branch args.base_branch ≡ false
  pub permitted : AllMay service args dir changes pin calls

ended-calls : (result : List Call × Outcome Exit Value) → (ended result).calls ≡ result.0
unfolding ended
ended-calls (made, ok sha) = refl
ended-calls (made, err exit) = refl

ended-zero :
    (result : List Call × Outcome Exit Value)
    → (ended result).code ≡ 0
    → (sha : Value) × (result.1 ≡ ok sha)
unfolding ended exit_code
ended-zero (made, ok sha) h = (sha, refl)
ended-zero (made, err failure) h = cc
ended-zero (made, err misuse) h = cc

module _ (service : Service) (is_printable : Text → Bool) (args : Args) (dir : TreeDir) where
  -- Whatever GitHub answers, a run makes no call, or it has prepared changes for a new branch
  -- that is not the base branch and each of its calls was permitted when it was made: a blob is
  -- of a regular file, a tree has an entry for each change, a commit has one parent, which
  -- agrees with the pin, and the branch that is pointed at a commit is the new one, the commit
  -- is one that was just made and read back, and GitHub attests it.
  pub commit_calls :
      ((main service is_printable args dir).calls ≡ [])
      ⊎ Committing service is_printable args dir (main service is_printable args dir).calls
  unfolding main run_prepared
  commit_calls = from (prepare is_printable args) refl
    where
      from :
          (found : Outcome Exit Prepared)
          → prepare is_printable args ≡ found
          → ((run_prepared service args dir found).calls ≡ [])
            ⊎ Committing service is_printable args dir (run_prepared service args dir found).calls
      from (err exit) e = inl refl
      from (ok none) e = inl refl
      from (ok (some (changes, pin))) e = inr (record {
        changes = changes;
        pin = pin;
        prepared = e;
        other_branch = prepare-differ is_printable args changes pin e;
        permitted =
            subst (AllMay service args dir changes pin)
              (sym (ended-calls (publish service args dir changes pin [])))
              (publish-AllMay service args dir changes pin);
      })

  module _ (changes : StatusChanges) (pin : Option Text) where
    tree_of_May :
        (made : List Call) (call : Call) (base_tree : Value) (entries : List TreeEntry)
        → May service args dir changes pin made call
        → call ≡ post_tree base_tree entries
        → paths_of entries ≡ changes.upserts ++ changes.deletes
    tree_of_May made call base_tree entries (may_read_ref branch) e = cc
    tree_of_May made call base_tree entries (may_read_commit sha) e = cc
    tree_of_May made call base_tree entries (may_post_blob path regular) e = cc
    tree_of_May made call base_tree entries (may_post_tree base named paths) e =
        ap paths_of (cc e) ∙ paths
    tree_of_May made call base_tree entries (may_post_commit tree base current) e = cc
    tree_of_May made call base_tree entries (may_point _ _ _ _ _ _ _ _ _ _ _ (inl p)) e = cc (p, e)
    tree_of_May made call base_tree entries (may_point _ _ _ _ _ _ _ _ _ _ _ (inr p)) e = cc (p, e)

    tree_of_AllMay :
        (calls : List Call) (base_tree : Value) (entries : List TreeEntry)
        → AllMay service args dir changes pin calls
        → Made (post_tree base_tree entries) calls
        → paths_of entries ≡ changes.upserts ++ changes.deletes
    tree_of_AllMay [] base_tree entries h found = absurd found
    tree_of_AllMay (call ∷ calls) base_tree entries h (inl e) =
        tree_of_May calls call base_tree entries h.0 e
    tree_of_AllMay (call ∷ calls) base_tree entries h (inr later) =
        tree_of_AllMay calls base_tree entries h.1 later

  module _ (gate : Gate) where
    All-Passes :
        (ups dels once : List Text)
        → All (MayUpsert is_printable gate) ups
        → All (MayDelete is_printable gate once) dels
        → All (Passes is_printable gate) (ups ++ dels)
    All-Passes [] [] once h k = tt
    All-Passes [] (d ∷ dels) once h k = (k.0.passes, All-Passes [] dels once h k.1)
    All-Passes (u ∷ ups) dels once h k = (h.0.passes, All-Passes ups dels once h.1 k)

  -- In payload mode, whatever GitHub answers, each path of each tree that a run posts passes
  -- the gate read from the config that the options name: it is canonical, matches the config's
  -- allowlist and is not opted out.
  pub payload_tree :
      (base_tree : Value) (entries : List TreeEntry)
      → payload_mode args ≡ true
      → Made (post_tree base_tree entries) (main service is_printable args dir).calls
      → (gate : Gate) × ((config : Config) × (destination : Text) × (args.config ≡ some config)
          × (args.config_destination ≡ some destination)
          × (read_gate is_printable config destination ≡ ok gate))
        × All (Passes is_printable gate) (paths_of entries)
  payload_tree base_tree entries mode made = elim commit_calls [
    | inl none_made ↦ absurd (subst (Made (post_tree base_tree entries)) none_made made)
    | inr committing ↦
        let gated =
          prepare-Gated is_printable args committing.changes committing.pin mode
            committing.prepared in
        let named =
          tree_of_AllMay committing.changes committing.pin _ base_tree entries committing.permitted
            made in
        (
          gated.gate,
          (
            gated.config, gated.destination, gated.config_given, gated.destination_given,
            gated.gate_read,
          ),
          subst (All (Passes is_printable gated.gate)) (sym named) (
              All-Passes gated.gate committing.changes.upserts committing.changes.deletes
                committing.changes.upserts gated.admitted.upserts gated.admitted.deletes),
        )
  ]

  -- A run that ends with a commit pointed the new branch at it in its last call.
  abbrev pub PointsLast : List Call × Outcome Exit Value → Type 0
  PointsLast result =
      (sha : Value)
      → result.1 ≡ ok sha
      → (call : Call) × (before : List Call) × (result.0 ≡ call ∷ before)
        × Points args.new_branch sha call

  continue-last :
      {A : Type 0} (result : List Call × Outcome Exit A) (next : A → Session Value)
      → ((a : A) (made : List Call) → PointsLast (next a made))
      → PointsLast (continue result next)
  continue-last (made, ok a) next h = h a made
  continue-last (made, err exit) next h = λ sha e. cc

  attest-last : (sha : Value) (made : List Call) → PointsLast (attest service args sha made)
  unfolding attest point github_api
  attest-last sha made = continue-last (github_api service (get_commit sha) made) _ (λ checked made.
      continue-last (refuse (not (is_attested checked sha)) made) _ (λ _ made.
        continue-last (github_api_optional service (get_ref args.new_branch) made) _ pointed))
    where
      pointed :
          (existing : Option Fields) (made : List Call)
          → PointsLast
              (continue (point service args.new_branch sha existing made) (λ _. return sha))
      pointed none made last e =
          let call = post_ref args.new_branch sha in
          let (_, _, after, returned) = continue-eq-ok (github_api service call made) _ e in
          (call, made, ap (λ r. r.0) after, inl (ap (post_ref args.new_branch) (ok_inj returned)))
      pointed (some fields) made last e =
          let call = patch_ref args.new_branch sha in
          let (_, _, after, returned) = continue-eq-ok (github_api service call made) _ e in
          (call, made, ap (λ r. r.0) after, inr (ap (patch_ref args.new_branch) (ok_inj returned)))

  make_commit-last :
      (base tree : Value) (made : List Call) → PointsLast (make_commit service args base tree made)
  unfolding make_commit
  make_commit-last base tree made = continue-last (github_api service _ made) _ (λ created made.
      continue-last (lift (item created "sha") made) _ (λ sha made. attest-last sha made))

  publish-last :
      (changes : StatusChanges) (pin : Option Text)
      → PointsLast (publish service args dir changes pin [])
  unfolding publish
  publish-last changes pin = continue-last (base_head service args []) _ (λ base made.
      continue-last (refuse (has_diverged pin base) made) _ (λ _ made.
        continue-last (tree_of service base made) _ (λ base_tree made.
          continue-last (make_tree service dir changes base_tree made) _
            (λ tree made. make_commit-last base tree made))))

  -- A run that exits with code 0 had nothing to commit and made no call, or its last call
  -- points the new branch at a commit.
  pub commit_zero :
      (main service is_printable args dir).code ≡ 0
      → ((prepare is_printable args ≡ ok none) × ((main service is_printable args dir).calls ≡ []))
        ⊎ ((sha : Value) × (call : Call) × (before : List Call) × ((main service is_printable args
                dir).calls
              ≡ call ∷ before)
            × Points args.new_branch sha call)
  unfolding main run_prepared exit_code
  commit_zero zero = from (prepare is_printable args) refl zero
    where
      from :
          (found : Outcome Exit Prepared)
          → prepare is_printable args ≡ found
          → (run_prepared service args dir found).code ≡ 0
          → ((prepare is_printable args ≡ ok none)
              × ((run_prepared service args dir found).calls ≡ []))
            ⊎ ((sha : Value) × (call : Call) × (before : List Call) × ((run_prepared service args
                    dir found).calls
                  ≡ call ∷ before)
                × Points args.new_branch sha call)
      from (err failure) e h = cc
      from (err misuse) e h = cc
      from (ok none) e h = inl (e, refl)
      from (ok (some (changes, pin))) e h =
          let result = publish service args dir changes pin [] in
          let (sha, done) = ended-zero result h in
          let (call, before, made, points) = publish-last changes pin sha done in
          inr (sha, call, before, ended-calls result ∙ made, points)
