-- ===== src/Commit/Publish/Live.antt =====
-- On `main` of create-signed-commit.py: what a service has to answer for a run to end well.
use mathlib.Core.Path.{subst}
use codex_platform.Base.{
  ◌≡◌, refl, ap, ◌⊎◌, inl, inr, String, Bool, true, false, not, List, [], ◌∷◌, ◌++◌, map, Option,
  none, some, Text, All,
}
use codex_platform.Base.Outcome.{Outcome, ok, err}
use codex_platform.Base.Value.{Value, obj, Fields, lookup}
use codex_platform.Commit.Status.{StatusChanges}
use codex_platform.Commit.Arguments.{Args, prepare}
use codex_platform.Commit.Session.{
  Exit, Call, get_ref, get_commit, post_blob, post_tree, post_commit, post_ref, patch_ref,
  TreeEntry, Answer, parsed, http_error, Service, Session, return, lift, ◌>>=◌, continue, refuse,
  github_api, github_api_optional, item, item_of, session_run,
}
use codex_platform.Commit.Publish.{
  TreeDir, is_irregular, removal, has_diverged, is_attested, upload, point, attest, make_commit,
  make_tree, base_head, tree_of, publish, ended, run_prepared, main, full_message,
}

-- The answer is a mapping with this value under the key.
abbrev pub Gives : Answer → String → Value → Type 0
Gives answer key v =
    (fields : Fields) × (answer ≡ parsed (obj fields)) × (lookup key fields ≡ some v)

-- It has a mapping under the key, with this value under the inner key.
abbrev pub GivesNested : Answer → String → String → Value → Type 0
GivesNested answer key inner v =
    (fields : Fields) × Gives answer key (obj fields) × (lookup inner fields ≡ some v)

-- The answer is a mapping.
abbrev pub Accepts : Answer → Type 0
Accepts answer = (fields : Fields) × (answer ≡ parsed (obj fields))

abbrev pub Done {ℓ} : {A : Type ℓ} → List Call × Outcome Exit A → Type ℓ
Done result = (a : _) × (result.1 ≡ ok a)

continue-Done {ℓ κ} :
    {A : Type ℓ} {B : Type κ} (result : List Call × Outcome Exit A) (next : A → Session B) (a : A)
    → result.1 ≡ ok a
    → Done (next a result.0)
    → Done (continue result next)
continue-Done (made, ok b) next a e h = subst (λ c. Done (next c made)) (cc) h
continue-Done (made, err exit) next a e h = cc

refuse-done : (bad : Bool) (made : List Call) → bad ≡ false → (refuse bad made).1 ≡ ok tt
refuse-done bad made h = rw h refl

item-done :
    (fields : Fields) (key : String) (v : Value)
    → lookup key fields ≡ some v
    → item fields key ≡ ok v
unfolding session_run
item-done fields key v h = rw h refl

github_api-done :
    (service : Service) (call : Call) (made : List Call) (fields : Fields)
    → service made call ≡ parsed (obj fields)
    → (github_api service call made).1 ≡ ok fields
unfolding github_api session_run
github_api-done service call made fields h = rw h refl

-- A call and an item of its answer.
Gives-Done {ℓ} :
    {B : Type ℓ} (service : Service) (call : Call) (made : List Call) (key : String) (v : Value)
    (next : Value → Session B)
    → Gives (service made call) key v
    → Done (next v (call ∷ made))
    → Done (continue (github_api service call made) (λ fields. lift (item fields key) >>= next))
unfolding github_api
Gives-Done service call made key v next (fields, answered, found) h =
    continue-Done (github_api service call made) _ fields
      (github_api-done service call made fields answered)
      (continue-Done (lift (item fields key) _) _ v (item-done fields key v found) h)

nested-done :
    (service : Service) (call : Call) (made : List Call) (key inner : String) (v : Value)
    → GivesNested (service made call) key inner v
    → (continue
        (github_api service call made)
        (λ fields. lift (item fields key) >>= λ w. lift (item_of w inner))).1
      ≡ ok v
unfolding session_run
nested-done service call made key inner v (inside, (fields, answered, found), inner_found) =
    rw (answered, found, inner_found) refl

upload-Done :
    (service : Service) (dir : TreeDir)
    → ((made : List Call) (content : Text)
        → (sha : Value) × Gives (service made (post_blob content)) "sha" sha)
    → (paths : List Text) (made : List Call) → All (λ path. is_irregular dir path ≡ false) paths
    → Done (upload service dir paths made)
unfolding upload
upload-Done service dir blobs [] made h = ([], refl)
upload-Done service dir blobs (path ∷ paths) made h =
    let call = post_blob (dir.content path) in
    let (sha, gives) = blobs made (dir.content path) in
    let (entries, uploaded) = upload-Done service dir blobs paths (call ∷ made) h.1 in
    continue-Done (refuse (is_irregular dir path) made) _ tt (refuse-done _ made h.0) (
      Gives-Done service call made "sha" sha _ gives
        (continue-Done (upload service dir paths (call ∷ made)) _ entries uploaded (_, refl)))

module _ (service : Service) (args : Args) where
  optional-found :
      (made : List Call) (fields : Fields)
      → service made (get_ref args.new_branch) ≡ parsed (obj fields)
      → (github_api_optional service (get_ref args.new_branch) made).1 ≡ ok (some fields)
  unfolding github_api_optional session_run
  optional-found made fields h = rw h refl

  optional-missing :
      (made : List Call)
      → service made (get_ref args.new_branch) ≡ http_error 404
      → (github_api_optional service (get_ref args.new_branch) made).1 ≡ ok none
  unfolding github_api_optional session_run
  optional-missing made h = rw h refl

  accepted-Done :
      (call : Call) (sha : Value) (made : List Call)
      → Accepts (service made call)
      → Done (continue (github_api service call made) (λ _. return sha))
  accepted-Done call sha made (fields, answered) =
      continue-Done (github_api service call made) _ fields
        (github_api-done service call made fields answered) (sha, refl)

  -- A service that is up, where the head of the base branch is `base`: it takes every blob, tree
  -- and commit, attests the commits that it made, and points branches at them.
  pub record Obliging (base : Value) : Type 0 where
    pub heads :
        (made : List Call)
        → GivesNested (service made (get_ref args.base_branch)) "object" "sha" base
    pub trees :
        (made : List Call)
        → (tree : Value) × GivesNested (service made (get_commit base)) "tree" "sha" tree
    pub takes_blob :
        (made : List Call) (content : Text)
        → (sha : Value) × Gives (service made (post_blob content)) "sha" sha
    pub takes_tree :
        (made : List Call) (tree : Value) (entries : List TreeEntry)
        → (sha : Value) × Gives (service made (post_tree tree entries)) "sha" sha
    pub takes_commit :
        (made : List Call) (message : Text) (tree : Value)
        → (sha : Value) × (checked : Fields) × Gives
            (service made (post_commit message tree (base ∷ [])))
            "sha"
            sha
          × (service (post_commit message tree (base ∷ []) ∷ made) (get_commit sha)
              ≡ parsed (obj checked))
          × (is_attested checked sha ≡ true)
    pub looks_up :
        (made : List Call)
        → Accepts (service made (get_ref args.new_branch))
          ⊎ (service made (get_ref args.new_branch) ≡ http_error 404)
    pub takes_ref :
        (made : List Call) (sha : Value) → Accepts (service made (post_ref args.new_branch sha))
    pub moves_ref :
        (made : List Call) (sha : Value) → Accepts (service made (patch_ref args.new_branch sha))

  module _ (base : Value) (obliging : Obliging base) where
    point-Done :
        (sha : Value) (made : List Call)
        → Done (
            continue
              (github_api_optional service (get_ref args.new_branch) made)
              (λ existing. point service args.new_branch sha existing >>= λ _. return sha))
    unfolding point github_api_optional
    point-Done sha made = elim (obliging.looks_up made) [
      | inl (fields, found) ↦
          continue-Done (github_api_optional service (get_ref args.new_branch) made) _ (some fields)
            (optional-found made fields found)
            (accepted-Done (patch_ref args.new_branch sha) sha (get_ref args.new_branch ∷ made)
              (obliging.moves_ref (get_ref args.new_branch ∷ made) sha))
      | inr missing ↦
          continue-Done (github_api_optional service (get_ref args.new_branch) made) _ none
            (optional-missing made missing)
            (accepted-Done (post_ref args.new_branch sha) sha (get_ref args.new_branch ∷ made)
              (obliging.takes_ref (get_ref args.new_branch ∷ made) sha))
    ]

    attest-Done :
        (sha : Value) (made : List Call) (checked : Fields)
        → service made (get_commit sha) ≡ parsed (obj checked)
        → is_attested checked sha ≡ true
        → Done (attest service args sha made)
    unfolding attest github_api
    attest-Done sha made checked answered attested =
        continue-Done (github_api service (get_commit sha) made) _ checked
          (github_api-done service (get_commit sha) made checked answered)
          (continue-Done (refuse (not (is_attested checked sha)) (get_commit sha ∷ made)) _ tt
            (refuse-done (not (is_attested checked sha)) (get_commit sha ∷ made) (ap not attested))
            (point-Done sha (get_commit sha ∷ made)))

    make_commit-Done :
        (tree : Value) (made : List Call) → Done (make_commit service args base tree made)
    unfolding make_commit
    make_commit-Done tree made =
        let message = full_message args.message args.app_slug in
        let (sha, checked, gives, read_back, attested) = obliging.takes_commit made message tree in
        Gives-Done service (post_commit message tree (base ∷ [])) made "sha" sha _ gives
          (attest-Done sha (post_commit message tree (base ∷ []) ∷ made) checked read_back attested)

    make_tree-Done :
        (dir : TreeDir) (changes : StatusChanges) (base_tree : Value) (made : List Call)
        → All (λ path. is_irregular dir path ≡ false) changes.upserts
        → Done (make_tree service dir changes base_tree made)
    unfolding make_tree
    make_tree-Done dir changes base_tree made regular =
        let (written, uploaded) =
          upload-Done service dir obliging.takes_blob changes.upserts made regular in
        let made_now = (upload service dir changes.upserts made).0 in
        let entries = written ++ map removal changes.deletes in
        let (sha, (fields, answered, found)) = obliging.takes_tree made_now base_tree entries in
        continue-Done (upload service dir changes.upserts made) _ written uploaded (
          continue-Done (github_api service (post_tree base_tree entries) made_now) _ fields
            (github_api-done service (post_tree base_tree entries) made_now fields answered)
            (sha, item-done fields "sha" sha found))

    publish-Done :
        (dir : TreeDir) (changes : StatusChanges) (pin : Option Text)
        → has_diverged pin base ≡ false
        → All (λ path. is_irregular dir path ≡ false) changes.upserts
        → Done (publish service args dir changes pin [])
    unfolding publish base_head tree_of
    publish-Done dir changes pin current regular =
        let headed =
          nested-done service (get_ref args.base_branch) [] "object" "sha" base
            (obliging.heads []) in
        let made = (base_head service args []).0 in
        let (tree, has_tree) = obliging.trees made in
        let based = nested-done service (get_commit base) made "tree" "sha" tree has_tree in
        let made_then = (tree_of service base made).0 in
        let (new_tree, treed) = make_tree-Done dir changes tree made_then regular in
        continue-Done (base_head service args []) _ base headed (
          continue-Done (refuse (has_diverged pin base) made) _ tt
            (refuse-done (has_diverged pin base) made current)
            (continue-Done (tree_of service base made) _ tree based (
              continue-Done (make_tree service dir changes tree made_then) _ new_tree treed
                (make_commit-Done new_tree (make_tree service dir changes tree made_then).0))))

ended-Done : (result : List Call × Outcome Exit Value) → Done result → (ended result).code ≡ 0
unfolding ended
ended-Done (made, ok sha) h = refl
ended-Done (made, err exit) h = cc (h.1)

-- If changes are prepared, the head of the base branch agrees with the pin, the files to write
-- are regular, and the service is up, takes each blob, tree and commit, attests the commits and
-- points branches at them, then the run exits with code 0.
pub commit_completes :
    (service : Service) (is_printable : Text → Bool) (args : Args) (dir : TreeDir)
    (changes : StatusChanges) (pin : Option Text) (base : Value)
    → prepare is_printable args ≡ ok (some (changes, pin))
    → has_diverged pin base ≡ false
    → All (λ path. is_irregular dir path ≡ false) changes.upserts
    → Obliging service args base
    → (main service is_printable args dir).code ≡ 0
unfolding main run_prepared
commit_completes service is_printable args dir changes pin base prepared current regular obliging =
    rw prepared (
      ended-Done (publish service args dir changes pin [])
        (publish-Done service args base obliging dir changes pin current regular))
