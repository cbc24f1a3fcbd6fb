-- ===== src/Commit/Publish/Permitted.antt =====
-- The calls that `main` of create-signed-commit.py is meant to be permitted, as a relation on the
-- calls made before.
use mathlib.Core.Path.{ap₂}
use codex_platform.Base.{
  String, ◌≡◌, refl, ap, sym, ◌∙◌, ◌⊎◌, inl, inr, true, false, not, List, [], ◌∷◌, ◌++◌, map,
  Option, none, some, Text, not-false,
}
use codex_platform.Base.Outcome.{ok, reject-eq-ok, ok_inj}
use codex_platform.Base.Value.{Value, obj, Fields, lookup}
use codex_platform.Commit.Status.{StatusChanges}
use codex_platform.Commit.Arguments.{Args}
use codex_platform.Commit.Session.{
  Call, get_ref, get_commit, post_blob, post_tree, post_commit, post_ref, patch_ref, TreeEntry,
  parsed, Service, return, lift, ◌>>=◌, continue, refuse, github_api, github_api_optional, item,
  item_of,
}
use codex_platform.Commit.Session.Kept.{
  continue-keeps, continue-eq-ok, github_api-eq-ok, item-eq-ok,
}
use codex_platform.Commit.Publish.{
  TreeDir, is_irregular, blob_entry, removal, has_diverged, is_attested, upload, point, attest,
  make_commit, make_tree, base_head, tree_of, publish, full_message,
}

abbrev pub paths_of : List TreeEntry → List Text
paths_of entries = map (λ (e : TreeEntry). e.path) entries

module _ (service : Service) (args : Args) (dir : TreeDir) (changes : StatusChanges)
    (pin : Option Text) where
  -- Blobs hold regular files of the changes, the tree has an entry for each change, the commit has
  -- the pinned base as its one parent, and the branch is pointed at a commit that was made so, that
  -- was read back and attested, after the branch was looked up.
  pub data May : List Call → Call → Type 0 where
    may_read_ref : {made : List Call} (branch : Text) → May made (get_ref branch)
    may_read_commit : {made : List Call} (sha : Value) → May made (get_commit sha)
    may_post_blob :
        {made : List Call} (path : Text)
        → is_irregular dir path ≡ false
        → May made (post_blob (dir.content path))
    may_post_tree :
        {made : List Call} (base_tree : Value) (entries : List TreeEntry)
        → paths_of entries ≡ changes.upserts ++ changes.deletes
        → May made (post_tree base_tree entries)
    may_post_commit :
        {made : List Call} (tree base : Value)
        → has_diverged pin base ≡ false
        → May made (post_commit (full_message args.message args.app_slug) tree (base ∷ []))
    may_point :
        {made : List Call} (message : Text) (tree base sha : Value) (created checked : Fields)
        (call : Call)
        → service made (post_commit message tree (base ∷ [])) ≡ parsed (obj created)
        → lookup "sha" created ≡ some sha
        → service (post_commit message tree (base ∷ []) ∷ made) (get_commit sha)
          ≡ parsed (obj checked)
        → is_attested checked sha ≡ true
        → (call ≡ post_ref args.new_branch sha) ⊎ (call ≡ patch_ref args.new_branch sha)
        → May
            (get_ref args.new_branch ∷ get_commit sha ∷ post_commit message tree (base ∷ []) ∷ made)
            call

  -- Every call was permitted when it was made.
  abbrev pub AllMay : List Call → Type 0
  AllMay [] = Unit
  AllMay (call ∷ made) = May made call × AllMay made

  upload-keeps :
      (paths : List Text) (made : List Call)
      → AllMay made
      → AllMay (upload service dir paths made).0
  unfolding upload github_api
  upload-keeps [] made h = h
  upload-keeps (path ∷ paths) made h =
      continue-keeps AllMay (refuse (is_irregular dir path) made) _ h (λ _ regular.
        let call = post_blob (dir.content path) in
        let posted : AllMay (call ∷ made) = (may_post_blob path (reject-eq-ok _ _ regular), h) in
        continue-keeps AllMay (github_api service call made) _ posted (λ blob _.
          continue-keeps AllMay (lift (item blob "sha") (call ∷ made)) _ posted (λ sha _.
            continue-keeps AllMay (upload service dir paths (call ∷ made)) _
              (upload-keeps paths (call ∷ made) posted)
              (λ _ _. upload-keeps paths (call ∷ made) posted))))

  upload-paths :
      (paths : List Text) (made : List Call) (entries : List TreeEntry)
      → (upload service dir paths made).1 ≡ ok entries
      → paths_of entries ≡ paths
  unfolding upload blob_entry
  upload-paths [] made entries h = ap paths_of (sym (ok_inj h))
  upload-paths (path ∷ paths) made entries h =
      let (_, _, _, h1) = continue-eq-ok (refuse (is_irregular dir path) made) _ h in
      let (blob, _, _, h2) =
        continue-eq-ok (github_api service (post_blob (dir.content path)) made) _ h1 in
      let (sha, _, _, h3) = continue-eq-ok (lift (item blob "sha") _) _ h2 in
      let (rest, uploaded, _, h4) = continue-eq-ok (upload service dir paths _) _ h3 in
      ap paths_of (sym (ok_inj h4)) ∙ ap (λ l. path ∷ l) (upload-paths paths _ rest uploaded)

  removal-paths : (paths : List Text) → paths_of (map removal paths) ≡ paths
  unfolding removal
  removal-paths [] = refl
  removal-paths (path ∷ paths) = ap (λ l. path ∷ l) (removal-paths paths)

  map_append : (xs ys : List TreeEntry) → paths_of (xs ++ ys) ≡ paths_of xs ++ paths_of ys
  map_append [] ys = refl
  map_append (x ∷ xs) ys = ap (λ l. x.path ∷ l) (map_append xs ys)

  make_tree-keeps :
      (base_tree : Value) (made : List Call)
      → AllMay made
      → AllMay (make_tree service dir changes base_tree made).0
  unfolding make_tree github_api
  make_tree-keeps base_tree made h =
      continue-keeps AllMay (upload service dir changes.upserts made) _
        (upload-keeps changes.upserts made h)
        (λ written uploaded.
          let made_now = (upload service dir changes.upserts made).0 in
          let entries = written ++ map removal changes.deletes in
          let named =
            map_append written (map removal changes.deletes)
            ∙ ap₂ (λ a b. a ++ b) (upload-paths changes.upserts made written uploaded)
                (removal-paths changes.deletes) in
          let posted : AllMay (post_tree base_tree entries ∷ made_now) =
            (may_post_tree base_tree entries named, upload-keeps changes.upserts made h) in
          continue-keeps AllMay (github_api service (post_tree base_tree entries) made_now) _ posted
            (λ _ _. posted))

  attest-keeps :
      (message : Text) (tree base sha : Value) (created : Fields) (made : List Call)
      → service made (post_commit message tree (base ∷ [])) ≡ parsed (obj created)
      → lookup "sha" created ≡ some sha
      → AllMay (post_commit message tree (base ∷ []) ∷ made)
      → AllMay (attest service args sha (post_commit message tree (base ∷ []) ∷ made)).0
  unfolding attest github_api github_api_optional point
  attest-keeps message tree base sha created made answered found h =
      let committed = post_commit message tree (base ∷ []) ∷ made in
      let checking : AllMay (get_commit sha ∷ committed) = (may_read_commit sha, h) in
      let looking : AllMay (get_ref args.new_branch ∷ get_commit sha ∷ committed) =
        (may_read_ref args.new_branch, checking) in
      continue-keeps AllMay (github_api service (get_commit sha) committed) _ checking
        (λ checked read_back.
          continue-keeps AllMay (refuse (not (is_attested checked sha)) _) _ checking (λ _ attested.
            continue-keeps AllMay
              (github_api_optional service (get_ref args.new_branch) (get_commit sha ∷ committed)) _
              looking
              (λ existing _.
                let may =
                  λ (call : Call)
                      (which : (call ≡ post_ref args.new_branch sha)
                        ⊎ (call ≡ patch_ref args.new_branch sha)).
                    may_point message tree base sha created checked call answered found
                      (github_api-eq-ok service (get_commit sha) committed checked read_back)
                      (not-false _ (reject-eq-ok _ _ attested)) which in
                pointed existing (λ call which. (may call which, looking)))))
    where
      pointed :
          {made : List Call} (existing : Option Fields)
          → ((call : Call)
              → (call ≡ post_ref args.new_branch sha) ⊎ (call ≡ patch_ref args.new_branch sha)
              → AllMay (call ∷ made))
          → AllMay (continue (point service args.new_branch sha existing made) (λ _. return sha)).0
      pointed none h =
          continue-keeps AllMay (github_api service (post_ref args.new_branch sha) _) _
            (h (post_ref args.new_branch sha) (inl refl))
            (λ _ _. h (post_ref args.new_branch sha) (inl refl))
      pointed (some fields) h =
          continue-keeps AllMay (github_api service (patch_ref args.new_branch sha) _) _
            (h (patch_ref args.new_branch sha) (inr refl))
            (λ _ _. h (patch_ref args.new_branch sha) (inr refl))

  make_commit-keeps :
      (base tree : Value) (made : List Call)
      → has_diverged pin base ≡ false
      → AllMay made
      → AllMay (make_commit service args base tree made).0
  unfolding make_commit github_api
  make_commit-keeps base tree made current h =
      let message = full_message args.message args.app_slug in
      let call = post_commit message tree (base ∷ []) in
      let posted : AllMay (call ∷ made) = (may_post_commit tree base current, h) in
      continue-keeps AllMay (github_api service call made) _ posted (λ created answered.
        continue-keeps AllMay (lift (item created "sha") (call ∷ made)) _ posted (λ sha found.
          attest-keeps message tree base sha created made
            (github_api-eq-ok service call made created answered)
            (item-eq-ok created "sha" sha found) posted))

  -- One read of the service and an item of an item of what it answers.
  nested-keeps :
      (call : Call) (key inner : String) (made : List Call)
      → AllMay (call ∷ made)
      → AllMay
          (continue
            (github_api service call made)
            (λ fields. lift (item fields key) >>= λ v. lift (item_of v inner))).0
  unfolding github_api
  nested-keeps call key inner made h =
      continue-keeps AllMay (github_api service call made) _ h
        (λ fields _. continue-keeps AllMay (lift (item fields key) _) _ h (λ _ _. h))

  pub publish-AllMay : AllMay (publish service args dir changes pin []).0
  unfolding publish base_head tree_of
  publish-AllMay =
      let headed =
        nested-keeps (get_ref args.base_branch) "object" "sha" []
          (may_read_ref args.base_branch, tt) in
      continue-keeps AllMay (base_head service args []) _ headed (λ base _.
        let made = (base_head service args []).0 in
        continue-keeps AllMay (refuse (has_diverged pin base) made) _ headed (λ _ current.
          let based =
            nested-keeps (get_commit base) "tree" "sha" made (may_read_commit base, headed) in
          let made_then = (tree_of service base made).0 in
          continue-keeps AllMay (tree_of service base made) _ based (λ base_tree _.
            continue-keeps AllMay (make_tree service dir changes base_tree made_then) _
              (make_tree-keeps base_tree made_then based)
              (λ tree _.
                make_commit-keeps base tree _ (reject-eq-ok _ _ current)
                  (make_tree-keeps base_tree made_then based)))))
