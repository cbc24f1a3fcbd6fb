-- ===== src/Sync/Fields.antt =====
-- The checks of single manifest and config fields in sync-engine.py: `parse_mode`, `parse_str_list`
-- and `parse_sensitive_write_allowlist`.
use codex_platform.Base.{
  ℕ, zero, ◌+◌, ◌*◌, ◌-◌, String, Bool, true, false, not, ◌&&◌, ◌||◌, List, [], ◌∷◌, Option, none,
  some, Text, codes, text_eq, elem, leb, ◌==◌, if◌then◌else◌, all,
}
use codex_platform.Base.Outcome.{Outcome, ok, err, reject, ◌>>=◌, ◌>>◌}
use codex_platform.Base.Value.{pos, Value, null, int, str, arr, Fields, Items, nil, cons, lookup}
use codex_platform.Sync.Paths.{Segments, join_slash, resolve_under}
use codex_platform.Sync.Sensitive.{matches_sensitive_write}

-- The ways that the engine returns 1, one for each message.
pub data Refusal : Type 0 where
  malformed_entry not_a_mapping bad_str_list bad_placeholder_key undeclared_collapse : Refusal
  bad_delete bad_create_if_missing delete_and_create bad_destination bad_source : Refusal
  mode_on_delete bad_mode escapes_root not_canonical not_allowed sensitive_delete : Refusal
  is_directory config_destination sensitive_write source_escapes source_missing : Refusal
  missing_placeholders bad_skip bad_targets bad_substitutions bad_allowed : Refusal
  bad_sensitive_list unknown_field : Refusal

-- `isinstance(raw, list) and all(isinstance(item, str) for item in raw)`, with the texts.
pub texts : Items → Option (List String)
texts nil = some []
texts (cons (str s) vs) = elim (texts vs) [ none ↦ none | some ss ↦ some (s ∷ ss) ]
texts (cons _ vs) = none

pub text_list : Value → Option (List String)
text_list (arr vs) = texts vs
text_list _ = none

abbrev or_refuse {ℓ} : {A : Type ℓ} → Refusal → Option A → Outcome Refusal A
or_refuse e none = err e
or_refuse e (some a) = ok a

-- An absent key and a null are the empty list.
present_str_list : Option Value → Outcome Refusal (List String)
present_str_list none = ok []
present_str_list (some null) = ok []
present_str_list (some v) = or_refuse bad_str_list (text_list v)

pub parse_str_list : Fields → String → Outcome Refusal (List String)
parse_str_list target key = present_str_list (lookup key target)

-- `int(text, 8)` on ASCII text: blanks around, a sign, an optional `0o`, and digits with single
-- underscores between them.
abbrev is_space : ℕ → Bool
is_space c = c == b' ' || (leb 9 c && leb c 13)

skip_spaces : Text → Text
skip_spaces [] = []
skip_spaces (c ∷ s) = let rest = skip_spaces s in if is_space c then rest else c ∷ s

-- Digits from an accumulator; the flag tells that a digit has to come next.
octal_digits : ℕ → Bool → Text → Option ℕ
octal_digits n due [] = if due then none else some n
octal_digits n due (c ∷ s) =
    let after_digit = octal_digits (n * 8 + (c - b'0')) false s in
    let after_underscore = octal_digits n true s in
    if leb b'0' c && leb c b'7'
    then after_digit
    else if c == b'_' && not due
    then after_underscore
    else if is_space c && not due && all is_space s
    then some n
    else none

-- An underscore may follow the prefix.
octal_prefixed : Text → Option ℕ
octal_prefixed [] = none
octal_prefixed (c ∷ s) = if c == b'_' then octal_digits 0 true s else octal_digits 0 true (c ∷ s)

octal_unsigned : Text → Option ℕ
octal_unsigned (c ∷ d ∷ s) =
    if c == b'0' && (d == b'o' || d == b'O')
    then octal_prefixed s
    else octal_digits 0 true (c ∷ d ∷ s)
octal_unsigned s = octal_digits 0 true s

-- Only zero may carry a minus for a mode; any other negative number is out of range.
octal_signed : Text → Option ℕ
octal_signed [] = none
octal_signed (c ∷ s) =
    if c == b'+'
    then octal_unsigned s
    else if c == b'-'
    then elim (octal_unsigned s) [ some zero ↦ some zero | _ ↦ none ]
    else octal_unsigned (c ∷ s)

mode_in_range : Option ℕ → Outcome Refusal (Option ℕ)
mode_in_range none = err bad_mode
mode_in_range (some n) = if leb n 0o7777 then ok (some n) else err bad_mode

-- A Boolean is refused although Python takes it for an integer.
pub parse_mode : Value → Outcome Refusal (Option ℕ)
parse_mode null = ok none
parse_mode (int (pos n)) = mode_in_range (some n)
parse_mode (str s) = mode_in_range (octal_signed (skip_spaces (codes s)))
parse_mode _ = err bad_mode

-- A destination in canonical form: its text is that of the path it resolves to below the root.
pub as_canonical : Text → Option Segments → Option Segments
as_canonical path none = none
as_canonical path (some rel) = if text_eq (join_slash rel) path then some rel else none

pub canonical : Segments → Text → Option Segments
canonical root path = as_canonical path (resolve_under root path)

pub is_some {ℓ} : {A : Type ℓ} → Option A → Bool
is_some none = false
is_some (some a) = true

-- One entry of `allow_sensitive_writes`: a literal, canonical path that is sensitive.
pub is_grant : Segments → Text → Bool
is_grant root entry =
    not (elem b'*' entry || elem b'?' entry)
    && is_some (canonical root entry)
    && matches_sensitive_write entry

pub grants : Segments → List String → Outcome Refusal (List Text)
grants root [] = ok []
grants root (s ∷ ss) = do
  reject (not (is_grant root (codes s))) bad_sensitive_list
  rest ← grants root ss
  ok (codes s ∷ rest)

sensitive_list : Segments → Option Value → Outcome Refusal (List Text)
sensitive_list root none = ok []
sensitive_list root (some v) = do
  entries ← or_refuse bad_sensitive_list (text_list v)
  grants root entries

pub parse_sensitive_write_allowlist : Fields → Segments → Outcome Refusal (List Text)
parse_sensitive_write_allowlist config root =
    sensitive_list root (lookup "allow_sensitive_writes" config)

-- Names what a run of these parsers opens.
unfoldable pub fields_run : Unit {0}
unfolding parse_str_list present_str_list text_list texts skip_spaces octal_digits octal_prefixed
    octal_unsigned octal_signed mode_in_range parse_mode as_canonical canonical is_some is_grant
    grants sensitive_list parse_sensitive_write_allowlist
fields_run = tt
