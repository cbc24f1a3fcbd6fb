-- ===== src/Commit/Status.antt =====
-- `StatusChanges` and `parse_status_bytes` of create-signed-commit.py: the output of
-- `git status --porcelain -z` as the files to write and the files to delete.
pub mod Printed
use codex_platform.Base.{
  Bool, true, false, not, ◌||◌, List, [], ◌∷◌, Text, elem, take, drop, ends_with, split_on,
  if◌then◌else◌,
}
use codex_platform.Base.Outcome.{Outcome, ok, err, ◌>>=◌}

pub record StatusChanges : Type 0 where
  pub upserts : List Text
  pub deletes : List Text

abbrev pub no_changes : StatusChanges
no_changes = record { upserts = []; deletes = [] }

-- The two messages of the ValueError.
pub data BadManifest : Type 0 where
  no_terminal_nul source_is_missing : BadManifest

pub add_upsert : Text → StatusChanges → StatusChanges
add_upsert path changes = record changes { upserts = path ∷ changes.upserts }

pub add_delete : Text → StatusChanges → StatusChanges
add_delete path changes = record changes { deletes = path ∷ changes.deletes }

-- `entry[:2]` and `entry[3:]`
abbrev pub code_of : Text → Text
code_of entry = take 2 entry

abbrev pub path_of : Text → Text
path_of entry = drop 3 entry

-- `"R" in code or "C" in code`
abbrev pub has_source : Text → Bool
has_source code = elem b'R' code || elem b'C' code

-- A rename removes its source, a copy leaves it in place.
pub record_moved : Text → Text → StatusChanges → StatusChanges
record_moved entry old changes =
    let moved = add_delete old changes in
    add_upsert (path_of entry) (if elem b'R' (code_of entry) then moved else changes)

pub record_plain : Text → StatusChanges → StatusChanges
record_plain entry changes =
    let deleted = add_delete (path_of entry) changes in
    let written = add_upsert (path_of entry) changes in
    if elem b'D' (code_of entry) then deleted else written

-- The loop over the parts. An entry with a source takes the part behind it too.
pub parse_parts : List Text → Outcome BadManifest StatusChanges
parse_parts [] = ok no_changes
parse_parts ([] ∷ parts) = parse_parts parts
parse_parts ((c ∷ entry) ∷ []) = elim (has_source (code_of (c ∷ entry))) [
  | true ↦ err source_is_missing
  | false ↦ ok (record_plain (c ∷ entry) no_changes)
]
parse_parts ((c ∷ entry) ∷ [] ∷ parts) = elim (has_source (code_of (c ∷ entry))) [
  | true ↦ err source_is_missing
  | false ↦ parse_parts parts >>= (λ changes. ok (record_plain (c ∷ entry) changes))
]
parse_parts ((c ∷ entry) ∷ (d ∷ old) ∷ parts) = elim (has_source (code_of (c ∷ entry))) [
  | true ↦ parse_parts parts >>= (λ changes. ok (record_moved (c ∷ entry) (d ∷ old) changes))
  | false ↦ parse_parts ((d ∷ old) ∷ parts) >>= (λ changes. ok (record_plain (c ∷ entry) changes))
]

pub parse_status_bytes : Text → Outcome BadManifest StatusChanges
parse_status_bytes [] = ok no_changes
parse_status_bytes (c ∷ raw) =
    let parsed = parse_parts (split_on 0 (c ∷ raw)) in
    if not (ends_with 0 (c ∷ raw)) then err no_terminal_nul else parsed

-- Names what a run of `parse_status_bytes` opens.
unfoldable pub status_run : Unit {0}
unfolding add_upsert add_delete record_moved record_plain parse_parts parse_status_bytes split_on
    ends_with
status_run = tt
