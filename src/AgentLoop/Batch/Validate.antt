-- ===== src/AgentLoop/Batch/Validate.antt =====
-- `_validate_batch` of agent-loop-state.py, a paragraph at a time and in the source's order.
pub mod Rows
use codex_platform.Base.{
  ℕ, zero, suc, String, Bool, true, false, not, ◌&&◌, ◌||◌, List, [], ◌∷◌, ◌++◌, Option, none, some,
  ltb, leb, ◌==◌, if◌then◌else◌, length, get_elem?, any, all,
}
use codex_platform.Base.Outcome.{ok, err, reject, ◌>>=◌, ◌>>◌}
use codex_platform.Base.Value.{
  ℤ, pos, negsuc, Value, null, int, str, arr, obj, Fields, lookup, keys, same_set, to_list, eq_int,
  eq_str, in_texts,
}
use codex_platform.AgentLoop.Failure.{
  Checked, state_error, type_error, fail, item, for_each, is_filled_text, is_positive, is_digest,
  is_absolute, path_is_absolute, member,
}
use codex_platform.AgentLoop.RunState.Validate.{has_key}

abbrev pub statuses : List String
statuses = "pending" ∷ "active" ∷ "finalized" ∷ "bailed" ∷ []

abbrev pub settled : List String
settled = "finalized" ∷ "bailed" ∷ []

abbrev required : List String
required =
    "version" ∷ "kind" ∷ "runId" ∷ "repo" ∷ "baseBranch" ∷ "allowlist" ∷ "cursor" ∷ "issues" ∷ []

abbrev extended : List String
extended = required ++ "projectDir" ∷ "gitConfigSha256" ∷ []

-- `value.get(key)`
abbrev get_or_null : Fields → String → Value
get_or_null fs key = elim (lookup key fs) [ none ↦ null | some v ↦ v ]

-- The version is compared by `!=`, which a Boolean passes as a number.
pub check_kind : Fields → Checked (Unit {0})
check_kind fs =
    reject
      (not (same_set (keys fs) required || same_set (keys fs) extended)
        || not (eq_int (get_or_null fs "version") (pos 1))
        || not (eq_str (get_or_null fs "kind") "batch"))
      (state_error ("batch state has missing, unknown, or unsupported fields" ∷ []))

check_text : Fields → String → Checked (Unit {0})
check_text fs key = do
  v ← item fs key
  reject (not (is_filled_text v))
      (state_error ("batch state " ∷ key ∷ " must be a non-empty string" ∷ []))

pub check_texts : Fields → Checked (Unit {0})
check_texts fs = for_each (check_text fs) ("runId" ∷ "repo" ∷ "baseBranch" ∷ [])

check_project_values : Fields → Checked (Unit {0})
check_project_values fs = do
  check_text fs "projectDir"
  dir ← item fs "projectDir"
  absolute ← path_is_absolute dir
  reject (not absolute) (state_error ("batch state projectDir must be absolute" ∷ []))
  digest ← item fs "gitConfigSha256"
  reject (not (is_digest 64 digest))
      (state_error ("batch state gitConfigSha256 must be a lowercase SHA-256 digest" ∷ []))

pub check_project : Fields → Checked (Unit {0})
check_project fs = if has_key "projectDir" fs then check_project_values fs else ok tt

-- The items of a list; `none` for a value that is no list.
abbrev pub as_list : Value → Option (List Value)
as_list (arr vs) = some (to_list vs)
as_list _ = none

-- The positive integers of a list, if it holds nothing else.
pub numbers : List Value → Option (List ℕ)
numbers [] = some []
numbers (int (pos (suc n)) ∷ vs) = elim (numbers vs) [ none ↦ none | some ns ↦ some (suc n ∷ ns) ]
numbers (_ ∷ vs) = none

-- `len(set(ns)) == len(ns)`
pub are_distinct : List ℕ → Bool
are_distinct [] = true
are_distinct (n ∷ ns) = not (any (λ m. n == m) ns) && are_distinct ns

allowlist_of : Option (List ℕ) → Checked (List ℕ)
allowlist_of (some (n ∷ ns)) =
    if are_distinct (n ∷ ns)
    then ok (n ∷ ns)
    else fail ("batch allowlist must contain unique positive issue numbers" ∷ [])
allowlist_of _ = fail ("batch allowlist must contain unique positive issue numbers" ∷ [])

pub check_allowlist : Fields → Checked (List ℕ)
check_allowlist fs = do
  v ← item fs "allowlist"
  allowlist_of (elim (as_list v) [ none ↦ none | some vs ↦ numbers vs ])

-- `type(cursor) is int and 0 <= cursor <= size`, with the cursor.
cursor_within : ℕ → Value → Checked ℕ
cursor_within size (int (pos n)) =
    if leb n size then ok n else fail ("batch cursor is invalid" ∷ [])
cursor_within size _ = fail ("batch cursor is invalid" ∷ [])

pub check_cursor : Fields → ℕ → Checked ℕ
check_cursor fs size = do v ← item fs "cursor"; cursor_within size v

rows_of : ℕ → Option (List Value) → Checked (List Value)
rows_of size none = fail ("batch issue statuses do not match the allowlist" ∷ [])
rows_of size (some rows) =
    if length rows == size
    then ok rows
    else fail ("batch issue statuses do not match the allowlist" ∷ [])

pub check_row_count : Fields → ℕ → Checked (List Value)
check_row_count fs size = do v ← item fs "issues"; rows_of size (as_list v)

row_fields : Value → Checked Fields
row_fields (obj row) =
    if same_set (keys row) ("issue" ∷ "status" ∷ "childRunState" ∷ [])
    then ok row
    else fail ("batch issue status has an invalid shape" ∷ [])
row_fields _ = fail ("batch issue status has an invalid shape" ∷ [])

-- `row["issue"] != allowlist[index] or row["status"] not in BATCH_STATUSES`
row_matches : ℕ → Value → Value → Checked Bool
row_matches number issue status =
    if eq_int issue (pos number) then member status statuses else ok false

-- A child path is null or absolute text.
child_is_valid : Value → Bool
child_is_valid null = true
child_is_valid (str s) = is_absolute s
child_is_valid _ = false

-- One round of the loop over the rows.
pub check_row : (cursor index number : ℕ) → Value → Checked (Unit {0})
check_row cursor index number v = do
  row ← row_fields v
  issue ← item row "issue"
  status ← item row "status"
  matches ← row_matches number issue status
  reject (not matches)
      (state_error ("batch issue status does not match the ordered allowlist" ∷ []))
  child ← item row "childRunState"
  reject (not (child_is_valid child))
      (state_error ("batch child run-state path must be absolute or null" ∷ []))
  reject (ltb index cursor && not (in_texts status settled))
      (state_error ("completed batch entries must be finalized or bailed" ∷ []))
  reject (ltb cursor index && not (eq_str status "pending"))
      (state_error ("future batch entries must remain pending" ∷ []))

-- The loop, from an index on. The two lists are as long as each other.
pub check_rows : (cursor index : ℕ) → List ℕ → List Value → Checked (Unit {0})
check_rows cursor index (n ∷ ns) (v ∷ vs) =
    check_row cursor index n v >> check_rows cursor (suc index) ns vs
check_rows cursor index _ _ = ok tt

-- `rows[index]["status"]`
pub row_status : Value → Checked Value
row_status (obj row) = item row "status"
row_status _ = err type_error

check_current_status : Value → Checked (Unit {0})
check_current_status v = do
  status ← row_status v
  known ← member status ("pending" ∷ "active" ∷ [])
  reject (not known) (state_error ("current batch entry must be pending or active" ∷ []))

pub check_current : ℕ → List Value → Checked (Unit {0})
check_current cursor rows = elim (get_elem? rows cursor) [
  | none ↦ ok tt
  | some v ↦ check_current_status v
]

unfoldable pub validate_batch : Fields → Checked (Unit {0})
validate_batch fs = do
  check_kind fs
  check_texts fs
  check_project fs
  allowlist ← check_allowlist fs
  cursor ← check_cursor fs (length allowlist)
  rows ← check_row_count fs (length allowlist)
  check_rows cursor 0 allowlist rows
  check_current cursor rows

-- Names what a run of `validate_batch` opens.
unfoldable pub validate_batch_run : Unit {0}
unfolding validate_batch check_kind check_texts check_text check_project check_project_values
    numbers are_distinct allowlist_of check_allowlist cursor_within check_cursor rows_of
    check_row_count row_fields row_matches child_is_valid check_row check_rows row_status
    check_current_status check_current
validate_batch_run = tt
