-- ===== src/Commit/Publish.antt =====
-- The second half of `main` of create-signed-commit.py: the calls that make the commit and point
-- the branch at it.
pub mod Permitted
pub mod Ends
pub mod Live
use codex_platform.Base.{
  ℕ, String, Bool, true, false, not, ◌&&◌, ◌||◌, List, [], ◌∷◌, ◌++◌, map, Option, none, some, Text,
  codes, text_eq, if◌then◌else◌,
}
use codex_platform.Base.Outcome.{Outcome, ok, err}
use codex_platform.Base.Value.{Value, null, str, obj, Fields, lookup, value_eq}
use codex_platform.Commit.Status.{StatusChanges}
use codex_platform.Commit.Payload.{is_falsy}
use codex_platform.Commit.Message.{with_signoff, derive_signoff_trailer}
use codex_platform.Commit.Arguments.{Args, prepare}
use codex_platform.Commit.Session.{
  Exit, failure, misuse, Call, get_ref, get_commit, post_blob, post_tree, post_commit, post_ref,
  patch_ref, TreeEntry, Service, Session, return, lift, ◌>>=◌, ◌>>◌, refuse, github_api,
  github_api_optional, item, item_of,
}

-- The directory that the files come from.
pub record TreeDir : Type 0 where
  pub is_symlink : Text → Bool
  pub is_file : Text → Bool
  pub stays_inside : Text → Bool
  pub is_executable : Text → Bool
  pub content : Text → Text

pub is_irregular : TreeDir → Text → Bool
is_irregular dir path = dir.is_symlink path || not (dir.is_file path) || not (dir.stays_inside path)

pub blob_entry : TreeDir → Text → Value → TreeEntry
blob_entry dir path sha = record {
  path = path;
  mode = if dir.is_executable path then codes "100755" else codes "100644";
  sha = sha;
}

pub removal : Text → TreeEntry
removal path = record { path = path; mode = codes "100644"; sha = null }

-- `app_slug` is given and not empty.
pub full_message : Text → Option Text → Text
full_message message none = message
full_message message (some slug) =
    if text_eq slug [] then message else with_signoff message (derive_signoff_trailer slug)

-- `base_sha != expected`
pub differs_from : Text → Value → Bool
differs_from expected (str s) = not (text_eq (codes s) expected)
differs_from expected _ = true

-- `expected_base_sha and base_sha != expected_base_sha`
pub has_diverged : Option Text → Value → Bool
has_diverged none base = false
has_diverged (some expected) base = not (text_eq expected []) && differs_from expected base

-- `verification.get("verified")` of a mapping that is not falsy.
pub says_verified : Option Value → Bool
says_verified (some (obj fs)) = elim (lookup "verified" fs) [
  | none ↦ false
  | some v ↦ not (is_falsy v)
]
says_verified _ = false

abbrev pub or_null : Option Value → Value
or_null none = null
or_null (some v) = v

-- The commit that is read back is the one that was made, and GitHub attests it.
pub is_attested : Fields → Value → Bool
is_attested checked sha =
    value_eq (or_null (lookup "sha" checked)) sha && says_verified (lookup "verification" checked)

-- The calls of a run, the last one first, and the code it exits with.
pub record Ran : Type 0 where
  pub calls : List Call
  pub code : ℕ

pub exit_code : Exit → ℕ
exit_code failure = 1
exit_code misuse = 2

pub ended : List Call × Outcome Exit Value → Ran
ended (made, ok sha) = record { calls = made; code = 0 }
ended (made, err exit) = record { calls = made; code = exit_code exit }

module _ (service : Service) where
  pub upload : TreeDir → List Text → Session (List TreeEntry)
  upload dir [] = return []
  upload dir (path ∷ paths) = do
    refuse (is_irregular dir path)
    blob ← github_api service (post_blob (dir.content path))
    sha ← lift (item blob "sha")
    entries ← upload dir paths
    return (blob_entry dir path sha ∷ entries)

  -- The new branch, made or moved by force.
  pub point : Text → Value → Option Fields → Session Fields
  point branch sha none = github_api service (post_ref branch sha)
  point branch sha (some existing) = github_api service (patch_ref branch sha)

  -- The commit is read back before the branch is looked at.
  pub attest : Args → Value → Session Value
  attest args sha = do
    checked ← github_api service (get_commit sha)
    refuse (not (is_attested checked sha))
    existing ← github_api_optional service (get_ref args.new_branch)
    pointed ← point args.new_branch sha existing
    return sha

  pub make_commit : Args → Value → Value → Session Value
  make_commit args base tree = do
    new_commit ←
        github_api service (post_commit (full_message args.message args.app_slug) tree (base ∷ []))
    sha ← lift (item new_commit "sha")
    attest args sha

  pub make_tree : TreeDir → StatusChanges → Value → Session Value
  make_tree dir changes base_tree = do
    written ← upload dir changes.upserts
    new_tree ← github_api service (post_tree base_tree (written ++ map removal changes.deletes))
    lift (item new_tree "sha")

  pub base_head : Args → Session Value
  base_head args = do
    base_ref ← github_api service (get_ref args.base_branch)
    object ← lift (item base_ref "object")
    lift (item_of object "sha")

  pub tree_of : Value → Session Value
  tree_of base = do
    base_commit ← github_api service (get_commit base)
    tree ← lift (item base_commit "tree")
    lift (item_of tree "sha")

  pub publish : Args → TreeDir → StatusChanges → Option Text → Session Value
  publish args dir changes pin = do
    base ← base_head args
    refuse (has_diverged pin base)
    base_tree ← tree_of base
    tree ← make_tree dir changes base_tree
    make_commit args base tree

  pub run_prepared : Args → TreeDir → Outcome Exit (Option (StatusChanges × Option Text)) → Ran
  run_prepared args dir (err exit) = record { calls = []; code = exit_code exit }
  run_prepared args dir (ok none) = record { calls = []; code = 0 }
  run_prepared args dir (ok (some (changes, pin))) = ended (publish args dir changes pin [])

  pub main : (Text → Bool) → Args → TreeDir → Ran
  main is_printable args dir = run_prepared args dir (prepare is_printable args)

-- Names what a run of `main` opens.
unfoldable pub publish_run : Unit {0}
unfolding is_irregular blob_entry removal full_message differs_from has_diverged says_verified
    is_attested upload point attest make_commit make_tree base_head tree_of publish exit_code ended
    run_prepared main
publish_run = tt
