-- ===== src/Commit/Samples.antt =====
-- A run of create-signed-commit.py in payload mode, and its parts, on concrete inputs.
use codex_platform.Base.{
  ◌≡◌, refl, ◌⊎◌, inl, inr, ◌↔◌, ◌&&◌, Bool, true, false, List, [], ◌∷◌, none, some, Text, codes,
  text_eq, All, all, leb,
}
use codex_platform.Base.Outcome.{ok}
use codex_platform.Base.Value.{value_eq, Value, bool, str, arr, obj, Fields, field, end, cons, nil}
use codex_platform.Sync.Sensitive
use codex_platform.Sync.Sensitive.{sensitive_run}
use codex_platform.Sync.Fields.{fields_run}
use codex_platform.Commit.Status.{StatusChanges, parse_status_bytes, status_run}
use codex_platform.Commit.Status.Printed.{
  Entry, plain, moved, print, meanings, is_plain, is_moved, status_reads_back,
}
use codex_platform.Commit.Policy.{is_sensitive_write_dest, is_sensitive_delete_dest, policy_run}
use codex_platform.Commit.Policy.Parity.{same_policy}
use codex_platform.Commit.Path.{canonical_manifest_path, path_run}
use codex_platform.Commit.Path.Canonical.{IsCanonical, canonical_iff}
use codex_platform.Commit.Payload.{Config, Gate, read_gate, payload_run}
use codex_platform.Commit.Payload.Admitted.{Passes}
use codex_platform.Commit.Message.{with_signoff, derive_signoff_trailer, message_run}
use codex_platform.Commit.Message.Once.{with_signoff_once}
use codex_platform.Commit.Session.{
  Call, get_ref, get_commit, post_tree, TreeEntry, parsed, http_error, Service, session_run,
}
use codex_platform.Commit.Arguments.{Args, prepare, prepare_run}
use codex_platform.Commit.Publish
use codex_platform.Commit.Publish.{TreeDir, main, publish_run, is_irregular, removal, blob_entry}
use codex_platform.Commit.Publish.Permitted.{paths_of}
use codex_platform.Commit.Publish.Ends.{
  Made, Points, Committing, commit_calls, payload_tree, commit_zero,
}
use codex_platform.Commit.Publish.Live.{Obliging, commit_completes}

abbrev is_ascii : Text → Bool
is_ascii s = all (λ c. leb 32 c && leb c 126) s

abbrev entries : List Entry
entries =
    plain b' ' b'M' (codes "docs/a.md")
    ∷ moved b'R' b' ' (codes "docs/b.md") (codes "docs/c.md")
    ∷ plain b' ' b'D' (codes "docs/d.md")
    ∷ []

status_reads_back_example : parse_status_bytes (print entries) ≡ ok (meanings entries)
status_reads_back_example =
    status_reads_back entries
      (is_plain refl refl, (is_moved refl refl refl, (is_plain refl refl, tt)))

same_policy_example :
    (is_sensitive_write_dest (codes "a/Dockerfile")
      ≡ Sensitive.is_sensitive_write_dest (codes "a/Dockerfile"))
    × (is_sensitive_delete_dest (codes "a/Dockerfile")
        ≡ Sensitive.is_sensitive_delete_dest (codes "a/Dockerfile"))
same_policy_example = same_policy (codes "a/Dockerfile")

canonical_iff_example :
    (canonical_manifest_path is_ascii (codes "docs/../a") ≡ some (codes "a"))
    ↔ ((codes "a" ≡ codes "docs/../a") × IsCanonical is_ascii (codes "docs/../a"))
canonical_iff_example = canonical_iff is_ascii (codes "docs/../a") (codes "a")

with_signoff_once_example :
    with_signoff (with_signoff (codes "sync") (derive_signoff_trailer (codes "app"))) (codes "x")
    ≡ with_signoff (codes "sync") (derive_signoff_trailer (codes "app"))
with_signoff_once_example = with_signoff_once (codes "sync") (codes "app") (codes "x")

abbrev head_sha : Text
head_sha = codes "0123456789abcdef0123456789abcdef01234567"

abbrev head : Value
head = str "0123456789abcdef0123456789abcdef01234567"

abbrev config : Config
config = record {
  is_file = true;
  is_symlink = false;
  document = obj (field "allowed_destinations" (arr (cons (str "docs/**") nil)) end);
}

abbrev args : Args
args = record {
  token = some (codes "t");
  base_branch = codes "main";
  new_branch = codes "sync";
  message = codes "sync";
  app_slug = some (codes "app");
  payload_dir = true;
  consumer_dir = false;
  manifest = some (some (print entries));
  config = some config;
  config_inside = false;
  config_destination = some (codes ".platform-config.yml");
  base_sha_file = none;
  expected_base_sha = some head_sha;
  status = none;
}

abbrev dir : TreeDir
dir = record {
  is_symlink = λ _. false;
  is_file = λ _. true;
  stays_inside = λ _. true;
  is_executable = λ _. false;
  content = λ path. path;
}

abbrev commit_fields : Value → Fields
commit_fields sha = field "sha" sha (
    field "tree" (obj (field "sha" (str "t0") end))
      (field "verification" (obj (field "verified" (bool true) end)) end))

-- A service that is up, with no branch of the new name.
abbrev service : Service
service made (get_ref branch) = elim (text_eq branch (codes "sync")) [
  | true ↦ http_error 404
  | false ↦ parsed (obj (field "object" (obj (field "sha" head end)) end))
]
service made (get_commit sha) = parsed (obj (commit_fields sha))
service made _ = parsed (obj (field "sha" (str "s1") end))

abbrev changes : StatusChanges
changes = record {
  upserts = codes "docs/a.md" ∷ codes "docs/b.md" ∷ [];
  deletes = codes "docs/c.md" ∷ codes "docs/d.md" ∷ [];
}

args_prepared : prepare is_ascii args ≡ ok (some (changes, some head_sha))
unfolding prepare_run payload_run path_run policy_run status_run message_run fields_run
    sensitive_run
args_prepared = refl

service-Obliging : Obliging service args head
unfolding publish_run payload_run value_eq
service-Obliging = record {
  heads = λ made. (field "sha" head end, (_, refl, refl), refl);
  trees = λ made. (str "t0", (field "sha" (str "t0") end, (_, refl, refl), refl));
  takes_blob = λ made content. (str "s1", (_, refl, refl));
  takes_tree = λ made tree entries. (str "s1", (_, refl, refl));
  takes_commit =
      λ made message tree. (str "s1", commit_fields (str "s1"), (_, refl, refl), refl, refl);
  looks_up = λ made. inr refl;
  takes_ref = λ made sha. (_, refl);
  moves_ref = λ made sha. (_, refl);
}

not_diverged : Publish.has_diverged (some head_sha) head ≡ false
unfolding publish_run
not_diverged = refl

regular : All (λ path. is_irregular dir path ≡ false) changes.upserts
unfolding publish_run
regular = (refl, (refl, tt))

commit_completes_example : (main service is_ascii args dir).code ≡ 0
commit_completes_example =
    commit_completes service is_ascii args dir changes (some head_sha) head args_prepared
      not_diverged regular service-Obliging

commit_calls_example :
    ((main service is_ascii args dir).calls ≡ [])
    ⊎ Committing service is_ascii args dir (main service is_ascii args dir).calls
commit_calls_example = commit_calls service is_ascii args dir

commit_zero_example :
    ((prepare is_ascii args ≡ ok none) × ((main service is_ascii args dir).calls ≡ []))
    ⊎ ((sha : Value) × (call : Call) × (before : List Call) × ((main service is_ascii args
            dir).calls
          ≡ call ∷ before)
        × Points args.new_branch sha call)
commit_zero_example = commit_zero service is_ascii args dir commit_completes_example

abbrev tree_entries : List TreeEntry
tree_entries =
    blob_entry dir (codes "docs/a.md") (str "s1")
    ∷ blob_entry dir (codes "docs/b.md") (str "s1")
    ∷ removal (codes "docs/c.md")
    ∷ removal (codes "docs/d.md")
    ∷ []

tree_posted : Made (post_tree (str "t0") tree_entries) (main service is_ascii args dir).calls
unfolding publish_run session_run value_eq payload_run message_run
tree_posted = rw args_prepared (inr (inr (inr (inr (inl refl)))))

payload_tree_example :
    (gate : Gate) × ((config : Config) × (destination : Text) × (args.config ≡ some config)
      × (args.config_destination ≡ some destination)
      × (read_gate is_ascii config destination ≡ ok gate))
    × All (Passes is_ascii gate) (paths_of tree_entries)
payload_tree_example =
    payload_tree service is_ascii args dir (str "t0") tree_entries refl tree_posted
