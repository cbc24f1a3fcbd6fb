-- ===== src/Sync/Engine/Settings.antt =====
-- What `main` of sync-engine.py reads from its two documents before it looks at the targets.
use codex_platform.Base.{
  ◌≡◌, sym, ap, String, Bool, true, false, not, List, [], Option, none, some, Text, codes, str_eq,
  ◌==◌, if◌then◌else◌, map,
}
use codex_platform.Base.Outcome.{Outcome, ok, err, ◌>>=◌, >>=-eq-ok, ok_inj}
use codex_platform.Base.Value.{
  pos, Value, null, bool, int, real, str, arr, obj, nil, Fields, end, lookup, to_list,
}
use codex_platform.Sync.Glob.{Piece, glob_to_regex}
use codex_platform.Sync.Paths.{Segments}
use codex_platform.Sync.Render.Substitute.{ShowOther}
use codex_platform.Sync.Fields.{
  Refusal, not_a_mapping, bad_skip, bad_targets, bad_substitutions, bad_allowed, text_list,
  parse_sensitive_write_allowlist,
}
use codex_platform.Sync.Engine.Target.{Printable}

-- The arguments of the run, and what Python's text functions are asked.
pub record Args : Type 0 where
  pub upstream : Segments
  pub consumer : Segments
  pub config_path : Segments
  pub dry_run : Bool
  pub printable : Printable
  pub show : ShowOther

-- `allowed` is `none` in the migration mode, where every destination is let through.
pub record Settings : Type 0 where
  pub args : Args
  pub values : Fields
  pub skip : List String
  pub allowed : Option (List (List Piece))
  pub consent : List Text

-- `value or default`: Python takes the default for what is false.
is_false : Value → Bool
is_false null = true
is_false (bool b) = not b
is_false (int (pos n)) = n == 0
is_false (real (some (pos n))) = n == 0
is_false (str s) = str_eq s ""
is_false (arr nil) = true
is_false (obj end) = true
is_false _ = false

given : Option Value → Option Value
given none = none
given (some v) = if is_false v then none else some v

targets_of : Option Value → Outcome Refusal (List Value)
targets_of none = ok []
targets_of (some (arr vs)) = ok (to_list vs)
targets_of (some _) = err bad_targets

values_of : Option Value → Outcome Refusal Fields
values_of none = ok end
values_of (some (obj fs)) = ok fs
values_of (some _) = err bad_substitutions

text_list_or : Refusal → Value → Outcome Refusal (List String)
text_list_or e v = elim (text_list v) [ none ↦ err e | some ts ↦ ok ts ]

skip_of : Option Value → Outcome Refusal (List String)
skip_of none = ok []
skip_of (some null) = ok []
skip_of (some v) = text_list_or bad_skip v

compile_all : List String → List (List Piece)
compile_all ts = map (λ t. glob_to_regex (codes t)) ts

-- An absent key is the migration mode; a null is an error, an empty list denies everything.
allowed_of : Option Value → Outcome Refusal (Option (List (List Piece)))
allowed_of none = ok none
allowed_of (some v) = do ts ← text_list_or bad_allowed v; ok (some (compile_all ts))

as_mapping : Value → Outcome Refusal Fields
as_mapping (obj fs) = ok fs
as_mapping _ = err not_a_mapping

-- The settings and the targets, or the refusal that ends the run before anything is looked at.
pub read_documents : Args → Value → Value → Outcome Refusal (Settings × List Value)
read_documents args targets_doc config_doc = do
  manifest ← as_mapping targets_doc
  config ← as_mapping config_doc
  skip ← skip_of (lookup "skip_targets" config)
  targets ← targets_of (given (lookup "targets" manifest))
  values ← values_of (given (lookup "substitutions" config))
  allowed ← allowed_of (lookup "allowed_destinations" config)
  consent ← parse_sensitive_write_allowlist config args.consumer
  ok (
    record { args = args; values = values; skip = skip; allowed = allowed; consent = consent },
    targets,
  )

-- The settings carry the run's own arguments.
pub read_documents-args :
    (args : Args) (targets_doc config_doc : Value) (settings : Settings) (targets : List Value)
    → read_documents args targets_doc config_doc ≡ ok (settings, targets)
    → settings.args ≡ args
unfolding read_documents
read_documents-args args targets_doc config_doc settings targets h =
    let (manifest, _, h) = >>=-eq-ok (as_mapping targets_doc) _ h in
    let (config, _, h) = >>=-eq-ok (as_mapping config_doc) _ h in
    let (skips, _, h) = >>=-eq-ok (skip_of (lookup "skip_targets" config)) _ h in
    let (ts, _, h) = >>=-eq-ok (targets_of (given (lookup "targets" manifest))) _ h in
    let (values, _, h) = >>=-eq-ok (values_of (given (lookup "substitutions" config))) _ h in
    let (allowed, _, h) = >>=-eq-ok (allowed_of (lookup "allowed_destinations" config)) _ h in
    let (consent, _, last) = >>=-eq-ok (parse_sensitive_write_allowlist config args.consumer) _ h in
    sym (ap (λ (r : Settings × List Value). r.0.args) (ok_inj last))

-- Names what a run of `read_documents` opens.
unfoldable pub settings_run : Unit {0}
unfolding read_documents as_mapping allowed_of compile_all skip_of text_list_or values_of targets_of
    given is_false
settings_run = tt
