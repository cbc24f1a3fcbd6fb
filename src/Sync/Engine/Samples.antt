-- ===== src/Sync/Engine/Samples.antt =====
-- Runs of the engine on a small file system, and the theorems at these runs.
use codex_platform.Base.{
  String, ◌≡◌, refl, Bool, true, false, [], ◌∷◌, Option, none, some, Text, codes, ◌||◌,
  if◌then◌else◌, any,
}
use codex_platform.Base.Outcome.{ok, err}
use codex_platform.Base.Value.{Value, str, arr, obj, Items, nil, cons, Fields, end, field}
use codex_platform.Sync.Glob.{matches}
use codex_platform.Sync.Sensitive.{sensitive_run}
use codex_platform.Sync.Paths.{Segments, same_path, paths_run}
use codex_platform.Sync.Host.{Host, host_run}
use codex_platform.Sync.Render.Tokens.{tokens_run}
use codex_platform.Sync.Render.Collapse.{collapse_run}
use codex_platform.Sync.Render.Substitute.{substitute_run}
use codex_platform.Sync.Fields.{fields_run}
use codex_platform.Sync.Engine.Target.{target_run}
use codex_platform.Sync.Engine.Settings.{Args, Settings, read_documents, settings_run}
use codex_platform.Sync.Engine.Plan.{plan_run}
use codex_platform.Sync.Engine.Policy.{Changes}
use codex_platform.Sync.Engine.Run.{main, writes_config, lacks_consent, engine_run}
use codex_platform.Sync.Engine.Run.Safety.{total}
use codex_platform.Sync.Engine.Run.Ends.{main-Changes, main_refuses, main_completes, main_dry_run}

-- Plain files without links, all with the same bits.
abbrev Tree : Type 0
Tree = Segments → Option Text

abbrev holds : Option Text → Bool
holds none = false
holds (some t) = true

abbrev text_of : Option Text → Text
text_of none = []
text_of (some t) = t

with_file : Segments → Option Text → Tree → Tree
with_file path content tree = λ p. if same_path p path then content else tree p

abbrev plain_host : Host
plain_host = record {
  State = Tree;
  is_file = λ tree path. holds (tree path);
  is_dir = λ tree path. false;
  is_symlink = λ tree path. false;
  exists = λ tree path. holds (tree path);
  resolve = λ tree path. path;
  read = λ tree path. text_of (tree path);
  mode = λ tree path. 0o644;
  make_dirs = λ path tree. tree;
  replace_file = λ path content bits tree. with_file path (some content) tree;
  chmod = λ path bits tree. tree;
  unlink = λ path tree. with_file path none tree;
  rmdir = λ path tree. none;
}

-- The upstream repository has the two sources of the manifest.
abbrev start : Tree
start =
    with_file (codes "up" ∷ codes "a.txt" ∷ []) (some (codes "<<NAME>>"))
      (with_file (codes "up" ∷ codes "ci.yml" ∷ []) (some (codes "on: push")) (λ path. none))

abbrev args_of : Bool → Args
args_of dry_run = record {
  upstream = codes "up" ∷ [];
  consumer = codes "app" ∷ [];
  config_path = codes "app" ∷ codes "sync.yml" ∷ [];
  dry_run = dry_run;
  printable = λ c. true;
  show = λ v. [];
}

abbrev entry : String → String → Fields → Value
entry source dest more = obj (field "source" (str source) (field "destination" (str dest) more))

abbrev manifest : Items → Value
manifest targets = obj (field "targets" (arr targets) end)

abbrev text_entry : Value
text_entry = entry "a.txt" "docs/a.txt" (field "substitutions" (arr (cons (str "NAME") nil)) end)

abbrev workflow_entry : Value
workflow_entry = entry "ci.yml" ".github/workflows/ci.yml" end

abbrev config : Value
config = obj (
    field "substitutions" (obj (field "NAME" (str "app") end))
      (field "allowed_destinations" (arr (cons (str "docs/**") (cons (str ".github/**") nil))) end))

abbrev one_document : Value
one_document = manifest (cons text_entry nil)

abbrev two_documents : Value
two_documents = manifest (cons text_entry (cons workflow_entry nil))

abbrev settings_of : Bool → Settings
settings_of dry_run = elim (read_documents (args_of dry_run) one_document config) [
  | ok r ↦ r.0
  | err e ↦ record { args = args_of dry_run; values = end; skip = []; allowed = none; consent = [] }
]

one_read :
    read_documents (args_of false) one_document config ≡ ok (settings_of false, text_entry ∷ [])
unfolding settings_run fields_run paths_run sensitive_run
one_read = refl

two_read :
    read_documents (args_of false) two_documents config
    ≡ ok (settings_of false, text_entry ∷ workflow_entry ∷ [])
unfolding settings_run fields_run paths_run sensitive_run
two_read = refl

one_written :
    (main plain_host (args_of false) one_document config start).disk
      (codes "app" ∷ codes "docs" ∷ codes "a.txt" ∷ [])
    ≡ some (codes "app")
unfolding engine_run settings_run plan_run target_run fields_run paths_run sensitive_run host_run
    substitute_run collapse_run tokens_run with_file matches
one_written = refl

one_ends : (main plain_host (args_of false) one_document config start).refusal ≡ none
unfolding engine_run settings_run plan_run target_run fields_run paths_run sensitive_run host_run
    substitute_run collapse_run tokens_run with_file matches
one_ends = refl

main-Changes_example :
    Changes plain_host
      (settings_of false)
      start
      (main plain_host (args_of false) one_document config start).disk
main-Changes_example =
    main-Changes plain_host (args_of false) one_document config start (settings_of false)
      (text_entry ∷ []) one_read

main_completes_example :
    (total (main plain_host (args_of false) one_document config start).counts ≡ 1)
    × (any (writes_config plain_host (settings_of false) start) (text_entry ∷ []) ≡ false)
    × (any (lacks_consent plain_host (settings_of false) start) (text_entry ∷ []) ≡ false)
main_completes_example =
    main_completes plain_host (args_of false) one_document config start (settings_of false)
      (text_entry ∷ []) one_read one_ends

-- The second entry would write a workflow that the config does not name.
two_offends :
    any (writes_config plain_host (settings_of false) start) (text_entry ∷ workflow_entry ∷ [])
      || any (lacks_consent plain_host (settings_of false) start) (text_entry ∷ workflow_entry ∷ [])
    ≡ true
unfolding engine_run settings_run plan_run target_run fields_run paths_run sensitive_run with_file
    matches
two_offends = refl

main_refuses_example : (main plain_host (args_of false) two_documents config start).disk ≡ start
main_refuses_example =
    main_refuses plain_host (args_of false) two_documents config start (settings_of false)
      (text_entry ∷ workflow_entry ∷ []) two_read two_offends

main_dry_run_example : (main plain_host (args_of true) one_document config start).disk ≡ start
main_dry_run_example = main_dry_run plain_host (args_of true) one_document config start refl
