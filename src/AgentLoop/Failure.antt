-- ===== src/AgentLoop/Failure.antt =====
-- The exceptions of agent-loop-state.py and its tests of single JSON values.
use codex_platform.Base.{
  ℕ, String, Bool, true, false, not, ◌&&◌, ◌||◌, List, [], ◌∷◌, none, some, Text, codes, has_prefix,
  is_digit, str_eq, leb, ◌==◌, length, all,
}
use codex_platform.Base.Outcome.{Outcome, ok, err, ◌>>◌}
use codex_platform.Base.Value.{
  ℤ, pos, negsuc, Value, str, Fields, lookup, type_int, is_hashable, in_texts,
}

-- A message is kept as its pieces; what an f-string inserts is a piece.
pub data Failure : Type 0 where
  state_error : List String → Failure
  os_error : Failure
  key_error : String → Failure
  type_error : Failure

abbrev pub Checked {ℓ} : Type ℓ → Type ℓ
Checked A = Outcome Failure A

abbrev pub fail {ℓ} : {A : Type ℓ} → List String → Checked A
fail pieces = err (state_error pieces)

-- `value[key]`
abbrev pub item : Fields → String → Checked Value
item fs key = elim (lookup key fs) [ none ↦ err (key_error key) | some v ↦ ok v ]

-- `for key in keys: body(key)`, for a body that only checks.
abbrev pub for_each : (String → Checked (Unit {0})) → List String → Checked (Unit {0})
for_each body [] = ok tt
for_each body (k ∷ ks) = body k >> for_each body ks

-- `isinstance(value, str) and value`
abbrev pub is_filled_text : Value → Bool
is_filled_text (str s) = not (str_eq s "")
is_filled_text _ = false

-- `lo <= n` for a natural `lo`.
abbrev pub at_least : ℕ → ℤ → Bool
at_least lo (pos n) = leb lo n
at_least lo (negsuc n) = false

abbrev pub at_most : ℕ → ℤ → Bool
at_most hi (pos n) = leb n hi
at_most hi (negsuc n) = true

-- `type(value) is int and value >= 1`
abbrev pub is_positive : Value → Bool
is_positive v = elim (type_int v) [ none ↦ false | some n ↦ at_least 1 n ]

abbrev is_lower_hex : ℕ → Bool
is_lower_hex c = is_digit c || (leb b'a' c && leb c b'f')

-- `re.compile(r"[0-9a-f]{n}").fullmatch(s)`
unfoldable pub is_hex_run : ℕ → Text → Bool
is_hex_run n s = (length s == n) && all is_lower_hex s

-- `isinstance(value, str) and PATTERN.fullmatch(value)`, for `SHA_RE` at 40 and `SHA256_RE` at 64.
abbrev pub is_digest : ℕ → Value → Bool
is_digest n (str s) = is_hex_run n (codes s)
is_digest n _ = false

-- `Path(text).is_absolute()` on POSIX.
abbrev pub is_absolute : String → Bool
is_absolute s = has_prefix (codes "/") (codes s)

-- `Path(value).is_absolute()`; `Path` raises TypeError on what is no text.
abbrev pub path_is_absolute : Value → Checked Bool
path_is_absolute (str s) = ok (is_absolute s)
path_is_absolute _ = err type_error

-- `value in {texts}`
abbrev pub member : Value → List String → Checked Bool
member v ts = elim (is_hashable v) [ true ↦ ok (in_texts v ts) | false ↦ err type_error ]
