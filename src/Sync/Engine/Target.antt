-- ===== src/Sync/Engine/Target.antt =====
-- The checks that `main` makes on one entry of the manifest before it looks at the disk.
use codex_platform.Base.{
  ℕ, String, Bool, true, false, not, ◌&&◌, ◌||◌, List, [], ◌∷◌, Option, none, some, Text, codes,
  str_eq, leb, is_digit, ◌==◌, if◌then◌else◌, all,
}
use codex_platform.Base.Outcome.{Outcome, ok, err, reject, ◌>>=◌, ◌>>◌}
use codex_platform.Base.Value.{Value, null, bool, str, obj, Fields, keys, lookup, elem_str}
use codex_platform.Sync.Fields.{
  Refusal, not_a_mapping, unknown_field, bad_placeholder_key, undeclared_collapse, bad_delete,
  bad_create_if_missing, delete_and_create, bad_destination, bad_source, malformed_entry,
  mode_on_delete, parse_str_list, parse_mode,
}

abbrev known_target_fields : List String
known_target_fields =
    "source" ∷ "destination" ∷ "substitutions" ∷ "collapse_empty_substitutions" ∷ "mode" ∷ "delete"
    ∷ "create_if_missing" ∷ []

check_known : List String → Outcome Refusal (Unit {0})
check_known ks = reject (not (all (λ k. elem_str k known_target_fields) ks)) unknown_field

-- `re.compile(r"[A-Z][A-Z0-9_]*\Z").fullmatch(key)`
abbrev is_upper : ℕ → Bool
is_upper c = leb b'A' c && leb c b'Z'

pub is_placeholder_name : Text → Bool
is_placeholder_name [] = false
is_placeholder_name (c ∷ s) = is_upper c && all (λ d. is_upper d || is_digit d || d == b'_') s

check_names : List String → Outcome Refusal (Unit {0})
check_names ks = reject (not (all (λ k. is_placeholder_name (codes k)) ks)) bad_placeholder_key

-- An optional flag that must be a real Boolean.
pub flag : Refusal → Option Value → Outcome Refusal Bool
flag e none = ok false
flag e (some null) = ok false
flag e (some (bool b)) = ok b
flag e (some _) = err e

-- `isprintable`, from the Unicode database.
abbrev pub Printable : Type 0
Printable = ℕ → Bool

-- An optional path: absent, null, or printable text that is not empty and no bare dots.
is_path_text : Printable → String → Bool
is_path_text printable s =
    not (str_eq s "" || str_eq s "." || str_eq s "..") && all printable (codes s)

path_field : Printable → Refusal → Option Value → Outcome Refusal (Option String)
path_field printable e none = ok none
path_field printable e (some null) = ok none
path_field printable e (some (str s)) = if is_path_text printable s then ok (some s) else err e
path_field printable e (some _) = err e

pub record Target : Type 0 where
  pub source : Option String
  pub destination : String
  pub substitutions : List String
  pub collapse : List String
  pub delete : Bool
  pub create_if_missing : Bool
  pub mode : Option ℕ

-- `destination` is always required, `source` for what is no deletion.
required_paths : Bool → Option String → Option String → Outcome Refusal String
required_paths delete source none = err malformed_entry
required_paths true source (some dest) = ok dest
required_paths false none (some dest) = err malformed_entry
required_paths false (some source) (some dest) = ok dest

is_given : Option Value → Bool
is_given none = false
is_given (some null) = false
is_given (some v) = true

mode_value : Option Value → Value
mode_value none = null
mode_value (some v) = v

target_mode : Bool → Option Value → Outcome Refusal (Option ℕ)
target_mode true o = reject (is_given o) mode_on_delete >> ok none
target_mode false o = parse_mode (mode_value o)

as_mapping : Value → Outcome Refusal Fields
as_mapping (obj fs) = ok fs
as_mapping _ = err not_a_mapping

pub parse_target : Printable → Value → Outcome Refusal Target
parse_target printable v = do
  fs ← as_mapping v
  check_known (keys fs)
  subs ← parse_str_list fs "substitutions"
  collapse ← parse_str_list fs "collapse_empty_substitutions"
  check_names subs
  check_names collapse
  reject (not (all (λ k. elem_str k subs) collapse)) undeclared_collapse
  delete ← flag bad_delete (lookup "delete" fs)
  create ← flag bad_create_if_missing (lookup "create_if_missing" fs)
  reject (delete && create) delete_and_create
  dest ← path_field printable bad_destination (lookup "destination" fs)
  source ← path_field printable bad_source (lookup "source" fs)
  destination ← required_paths delete source dest
  mode ← target_mode delete (lookup "mode" fs)
  ok (record {
    source = source;
    destination = destination;
    substitutions = subs;
    collapse = collapse;
    delete = delete;
    create_if_missing = create;
    mode = mode;
  })

-- Names what a run of `parse_target` opens.
unfoldable pub target_run : Unit {0}
unfolding parse_target as_mapping target_mode mode_value is_given required_paths path_field
    is_path_text flag check_names is_placeholder_name check_known
target_run = tt
