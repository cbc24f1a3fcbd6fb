-- ===== src/Handoff/Comments.antt =====
-- `_flatten_pages`, `_issue_comments`, `_matching_body` and `_read_context` of
-- local-review-handoff.py. The pages are the JSON that gh prints.
use codex_platform.Base.{
  ℕ, String, Bool, true, false, not, ◌&&◌, List, [], ◌∷◌, ◌++◌, Option, none, some, Text, codes,
  text_eq, has_part, elem, if◌then◌else◌,
}
use codex_platform.Base.Outcome.{Outcome, ok, err, reject, or_raise, ◌>>=◌, ◌>>◌}
use codex_platform.Base.Value.{
  Value, int, str, arr, obj, pos, Items, nil, cons, Fields, lookup, eq_str,
}

-- The messages of HandoffError.
pub data HandoffError : Type 0 where
  bad_pages bad_rows duplicated_key conflicting_content : HandoffError
  bad_context_file bad_encoding nul_in_context marker_in_context : HandoffError
  malformed_run cap_disagrees bad_run_digest conflicting_run broken_chain two_ends : HandoffError
  bad_round no_run run_ended other_base over_cap pass_done round_skipped : HandoffError
  empty_authorization restart_needed end_needed ended_differently : HandoffError
  head_moved post_failed no_comment_id unverified_comment key_unresolved : HandoffError

-- One page: all of its rows have to be mappings.
pub rows_of : Items → Outcome HandoffError (List Fields)
rows_of nil = ok []
rows_of (cons (obj fs) vs) = rows_of vs >>= (λ rows. ok (fs ∷ rows))
rows_of (cons _ vs) = err bad_rows

page_rows : Value → Outcome HandoffError (List Fields)
page_rows (arr vs) = rows_of vs
page_rows _ = err bad_pages

is_page : Value → Bool
is_page (arr _) = true
is_page _ = false

all_pages : Items → Bool
all_pages nil = true
all_pages (cons v vs) = is_page v && all_pages vs

pages_rows : Items → Outcome HandoffError (List Fields)
pages_rows nil = ok []
pages_rows (cons page pages) = do rows ← page_rows page; rest ← pages_rows pages; ok (rows ++ rest)

pub flatten_pages : Value → Outcome HandoffError (List Fields)
flatten_pages (arr pages) = reject (not (all_pages pages)) bad_pages >> pages_rows pages
flatten_pages _ = err bad_pages

-- `isinstance(row.get("user"), dict) and row["user"].get("login") == actor`
user_is : String → Option Value → Bool
user_is actor (some (obj user)) = elim (lookup "login" user) [
  | none ↦ false
  | some v ↦ eq_str v actor
]
user_is actor _ = false

pub own_rows : String → List Fields → List Fields
own_rows actor [] = []
own_rows actor (row ∷ rows) =
    let rest = own_rows actor rows in if user_is actor (lookup "user" row) then row ∷ rest else rest

-- What the script reads of a row: the body where it is text, the id where it is an integer. GitHub's
-- ids are not negative.
pub record Comment : Type 0 where
  pub id : Option ℕ
  pub body : Option Text

pub text_field : Option Value → Option Text
text_field (some (str s)) = some (codes s)
text_field _ = none

pub id_field : Option Value → Option ℕ
id_field (some (int (pos n))) = some n
id_field _ = none

abbrev pub comment_of : Fields → Comment
comment_of row = record { id = id_field (lookup "id" row); body = text_field (lookup "body" row) }

pub comments_of : List Fields → List Comment
comments_of [] = []
comments_of (row ∷ rows) = comment_of row ∷ comments_of rows

pub issue_comments : String → Value → Outcome HandoffError (List Comment)
issue_comments actor pages =
    flatten_pages pages >>= (λ rows. ok (comments_of (own_rows actor rows)))

-- A body that is no text holds no marker.
abbrev pub has_marker : Text → Comment → Bool
has_marker marker row = elim row.body [ none ↦ false | some body ↦ has_part marker body ]

pub with_marker : Text → List Comment → List Comment
with_marker marker [] = []
with_marker marker (row ∷ rows) =
    let rest = with_marker marker rows in if has_marker marker row then row ∷ rest else rest

pub body_is : Text → Option Text → Bool
body_is body none = false
body_is body (some found) = text_eq found body

-- The one comment with the marker, which has to be the whole body.
pub only_match : Text → List Comment → Outcome HandoffError (Option ℕ)
only_match body [] = ok none
only_match body (row ∷ []) = do
  reject (not (body_is body row.body)) conflicting_content
  id ← or_raise conflicting_content row.id
  ok (some id)
only_match body (row ∷ next ∷ rows) = err duplicated_key

pub matching_body : List Comment → Text → Text → Outcome HandoffError (Option ℕ)
matching_body rows marker body = only_match body (with_marker marker rows)

-- The file of `--context-file`, if that is given; `text` is its content where it is valid UTF-8.
pub record ContextFile : Type 0 where
  pub is_regular : Bool
  pub text : Option Text

pub read_context : Option ContextFile → Outcome HandoffError Text
read_context none = ok []
read_context (some file) = do
  reject (not file.is_regular) bad_context_file
  context ← or_raise bad_encoding file.text
  reject (elem 0 context) nul_in_context
  reject (has_part (codes "<!-- local-review") context) marker_in_context
  ok context

-- Names what a run of these opens.
unfoldable pub comments_run : Unit {0}
unfolding rows_of page_rows is_page all_pages pages_rows flatten_pages user_is own_rows text_field
    id_field comments_of issue_comments with_marker body_is only_match matching_body read_context
comments_run = tt
