-- ===== src/Commit/Status/Printed.antt =====
-- On `parse_status_bytes` of create-signed-commit.py: the entries that `git status --porcelain -z`
-- prints, and what they say of the files.
use codex_platform.Base.{
  ℕ, ◌≡◌, refl, ap, ◌∙◌, Bool, true, false, not, ◌||◌, if◌then◌else◌, List, [], ◌∷◌, ◌++◌, Text,
  arith, ◌==◌, all, All, ends_with, split_on, &&-true, Bool-cases, inl, inr,
}
use codex_platform.Base.Outcome.{ok, ◌>>=◌}
use codex_platform.Commit.Status.{
  StatusChanges, has_source, record_moved, record_plain, parse_parts, parse_status_bytes, code_of,
  status_run,
}

-- Two status codes, a space and the path; a renamed or copied file is followed by its old path.
pub data Entry : Type 0 where
  plain : (x y : ℕ) (path : Text) → Entry
  moved : (x y : ℕ) (path old : Text) → Entry

abbrev pub line : ℕ → ℕ → Text → Text
line x y path = x ∷ y ∷ b' ' ∷ path

abbrev pub print_entry : Entry → Text → Text
print_entry (plain x y path) rest = line x y path ++ 0 ∷ rest
print_entry (moved x y path old) rest = line x y path ++ (0 ∷ (old ++ (0 ∷ rest)))

abbrev pub print : List Entry → Text
print [] = []
print (e ∷ es) = print_entry e (print es)

-- What the entries say of the files: one with the code D is deleted and any other is written; a
-- rename, which has the code R, deletes its old path too, and a copy keeps it.
abbrev pub written : List Entry → List Text
written [] = []
written (plain x y path ∷ es) = if b'D' == x || b'D' == y then written es else path ∷ written es
written (moved x y path old ∷ es) = path ∷ written es

abbrev pub deleted : List Entry → List Text
deleted [] = []
deleted (plain x y path ∷ es) = if b'D' == x || b'D' == y then path ∷ deleted es else deleted es
deleted (moved x y path old ∷ es) = if b'R' == x || b'R' == y then old ∷ deleted es else deleted es

abbrev pub meanings : List Entry → StatusChanges
meanings es = record { upserts = written es; deletes = deleted es }

record_plain-meanings :
    (x y : ℕ) (path : Text) (es : List Entry)
    → record_plain (line x y path) (meanings es) ≡ meanings (plain x y path ∷ es)
unfolding status_run
record_plain-meanings x y path es = elim (Bool-cases (b'D' == x)) [
  | inl first ↦ rw first refl
  | inr other ↦ elim (Bool-cases (b'D' == y)) [
    | inl second ↦ rw (other, second) refl
    | inr neither ↦ rw (other, neither) refl
  ]
]

record_moved-meanings :
    (x y : ℕ) (path old : Text) (es : List Entry)
    → record_moved (line x y path) old (meanings es) ≡ meanings (moved x y path old ∷ es)
unfolding status_run
record_moved-meanings x y path old es = elim (Bool-cases (b'R' == x)) [
  | inl first ↦ rw first refl
  | inr other ↦ elim (Bool-cases (b'R' == y)) [
    | inl second ↦ rw (other, second) refl
    | inr neither ↦ rw (other, neither) refl
  ]
]

abbrev pub no_nul : Text → Bool
no_nul s = all (λ c. not (c == 0)) s

-- An entry as git prints it: only a moved one has R or C among its codes, and an old path.
pub data IsEntry : Entry → Type 0 where
  is_plain :
      {x y : ℕ} {path : Text}
      → no_nul (line x y path) ≡ true
      → has_source (x ∷ y ∷ []) ≡ false
      → IsEntry (plain x y path)
  is_moved :
      {x y d : ℕ} {path old : Text}
      → no_nul (line x y path) ≡ true
      → has_source (x ∷ y ∷ []) ≡ true
      → no_nul (d ∷ old) ≡ true
      → IsEntry (moved x y path (d ∷ old))

split_on-part : (s t : Text) → no_nul s ≡ true → split_on 0 (s ++ 0 ∷ t) ≡ s ∷ split_on 0 t
unfolding split_on
split_on-part [] t h = refl
split_on-part (c ∷ s) t h =
    let (hc, hs) = &&-true (not (c == 0)) (no_nul s) h in rw (split_on-part s t hs) (ground arith)

parse_parts-plain :
    (c : ℕ) (entry : Text) (parts : List Text)
    → has_source (code_of (c ∷ entry)) ≡ false
    → parse_parts ((c ∷ entry) ∷ parts)
      ≡ (parse_parts parts >>= λ changes. ok (record_plain (c ∷ entry) changes))
unfolding parse_parts
parse_parts-plain c entry [] h = rw (h, parse_parts) refl
parse_parts-plain c entry ([] ∷ parts) h = rw (h, parse_parts) refl
parse_parts-plain c entry ((d ∷ old) ∷ parts) h = rw (h, parse_parts) refl

parse_parts-moved :
    (c d : ℕ) (entry old : Text) (parts : List Text)
    → has_source (code_of (c ∷ entry)) ≡ true
    → parse_parts ((c ∷ entry) ∷ (d ∷ old) ∷ parts)
      ≡ (parse_parts parts >>= λ changes. ok (record_moved (c ∷ entry) (d ∷ old) changes))
unfolding parse_parts
parse_parts-moved c d entry old parts h = rw (h, parse_parts) refl

parts_read :
    (es : List Entry) → All IsEntry es → parse_parts (split_on 0 (print es)) ≡ ok (meanings es)
unfolding parse_parts split_on
parts_read [] h = refl
parts_read (plain x y path ∷ es) (is_plain clean no_source, h) =
    rw
      (
        split_on-part (line x y path) (print es) clean,
        parse_parts-plain x (y ∷ b' ' ∷ path) (split_on 0 (print es)) no_source,
        parts_read es h,
      )
      (ap ok (record_plain-meanings x y path es))
parts_read (moved x y path [] ∷ es) (known, h) = elim known [ ]
parts_read (moved x y path (d ∷ old) ∷ es) (is_moved clean source clean_old, h) =
    rw
      (
        split_on-part (line x y path) ((d ∷ old) ++ 0 ∷ print es) clean,
        split_on-part (d ∷ old) (print es) clean_old,
        parse_parts-moved x d (y ∷ b' ' ∷ path) old (split_on 0 (print es)) source,
        parts_read es h,
      )
      (ap ok (record_moved-meanings x y path (d ∷ old) es))

ends_with-append : (s t : Text) → ends_with 0 t ≡ true → ends_with 0 (s ++ t) ≡ true
unfolding ends_with
ends_with-append [] t h = h
ends_with-append (c ∷ []) [] h = cc
ends_with-append (c ∷ []) (d ∷ t) h = h
ends_with-append (c ∷ e ∷ s) t h = ends_with-append (e ∷ s) t h

nul_last : (es : List Entry) → ends_with 0 (0 ∷ print es) ≡ true
unfolding ends_with
nul_last [] = refl
nul_last (plain x y path ∷ es) = ends_with-append (0 ∷ line x y path) (0 ∷ print es) (nul_last es)
nul_last (moved x y path old ∷ es) =
    ends_with-append (0 ∷ line x y path) (0 ∷ (old ++ (0 ∷ print es)))
      (ends_with-append (0 ∷ old) (0 ∷ print es) (nul_last es))

ends_with-nul : (e : Entry) (es : List Entry) → ends_with 0 (print (e ∷ es)) ≡ true
unfolding ends_with
ends_with-nul (plain x y path) es = ends_with-append (line x y path) (0 ∷ print es) (nul_last es)
ends_with-nul (moved x y path old) es =
    ends_with-append (line x y path) (0 ∷ (old ++ (0 ∷ print es)))
      (ends_with-append (0 ∷ old) (0 ∷ print es) (nul_last es))

parse_status_bytes-filled :
    (c : ℕ) (raw : Text)
    → ends_with 0 (c ∷ raw) ≡ true
    → parse_status_bytes (c ∷ raw) ≡ parse_parts (split_on 0 (c ∷ raw))
unfolding parse_status_bytes
parse_status_bytes-filled c raw h = rw h refl

-- For entries as git prints them, `parse_status_bytes` of their text gives their paths in their
-- order: to write, those of plain entries without the code D and the new paths of renames and
-- copies; to delete, those of plain entries with the code D and the old paths of renames, but
-- not those of copies.
pub status_reads_back :
    (es : List Entry) → All IsEntry es → parse_status_bytes (print es) ≡ ok (meanings es)
unfolding parse_status_bytes
status_reads_back [] h = refl
status_reads_back (plain x y path ∷ es) h =
    parse_status_bytes-filled x _ (ends_with-nul (plain x y path) es)
    ∙ parts_read (plain x y path ∷ es) h
status_reads_back (moved x y path old ∷ es) h =
    parse_status_bytes-filled x _ (ends_with-nul (moved x y path old) es)
    ∙ parts_read (moved x y path old ∷ es) h
