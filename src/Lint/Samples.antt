-- ===== src/Lint/Samples.antt =====
-- A template with one collapsing key, checked by lint-collapse-sites.py.
use codex_platform.Base.{
  ℕ, ◌≡◌, refl, ap, Bool, true, false, List, [], ◌∷◌, some, none, Text, codes, text_eq, Bool-cases,
  inl, inr, split_on, get_elem?, if◌then◌else◌,
}
use codex_platform.Base.Outcome.{ok}
use codex_platform.Base.Value.{Value, str, arr, obj, Fields, Items, field, end, cons, nil}
use codex_platform.Sync.Render.Tokens.{tokens_run}
use codex_platform.Sync.Render.Collapse.{has_text, value_of, collapse_run, Rendered}
use codex_platform.Sync.Fields.{fields_run}
use codex_platform.Commit.Payload.{payload_run, is_falsy}
use codex_platform.Commit.Message.{message_run}
use codex_platform.Lint.Patterns.{patterns_run}
use codex_platform.Lint.Scan.{scan_run}
use codex_platform.Lint.Check.{check_source, check_run, line_keys}
use codex_platform.Lint.Check.Sound.{Site}
use codex_platform.Lint.Main.{
  Outside, get, key_texts, destination_of, is_markdown, main, main_run, complaints, non_markdown,
}
use codex_platform.Lint.Main.Linted.{linted-Site}

abbrev no_word : ℕ → Bool
no_word c = false

abbrev template : List Text
template = codes "# Title" ∷ [] ∷ codes "<<NOTE>>" ∷ [] ∷ codes "Text." ∷ []

abbrev opted_in : List Text
opted_in = codes "NOTE" ∷ []

abbrev rendered : Rendered
rendered = (codes "NOTE", []) ∷ []

template_checked : check_source no_word template opted_in ≡ []
unfolding check_run scan_run patterns_run tokens_run collapse_run message_run
template_checked = refl

note_there : has_text (codes "NOTE") (line_keys (codes "<<NOTE>>")) ≡ true
unfolding check_run tokens_run
note_there = refl

renders_empty : (k : Text) → has_text k opted_in ≡ true → value_of k rendered ≡ some []
renders_empty k h = elim (Bool-cases (text_eq (codes "NOTE") k)) [
  | inl same ↦ rw same refl
  | inr other ↦ absurd (cc (rw other at h))
]

abbrev template_text : Text
template_text = codes "# Title\n\n<<NOTE>>\n\nText."

abbrev outside : Outside
outside = record {
  lower = λ t. t;
  read_text = λ path. if text_eq path (codes "a.md.tmpl") then some template_text else none;
  show = λ _. [];
  is_word = no_word;
}

abbrev entry_to : Value → Fields
entry_to dest = field "source" (str "a.md.tmpl") (
    field "destination" dest
      (field "collapse_empty_substitutions" (arr (cons (str "NOTE") nil)) end))

abbrev entries : Items
entries = cons (obj (entry_to (str "a.md"))) nil

abbrev manifest : Fields
manifest = field "targets" (arr entries) end

manifest_passes : main outside (obj manifest) ≡ ok 0
unfolding main_run check_run scan_run patterns_run tokens_run collapse_run message_run fields_run
    payload_run split_on
manifest_passes = refl

other_destination :
    complaints outside (obj (entry_to (str "a.txt")) ∷ [])
    ≡ ok (non_markdown (codes "a.md.tmpl") (codes "NOTE") (codes "a.txt") ∷ [])
unfolding main_run check_run fields_run payload_run
other_destination = refl

opts_in : key_texts (get "collapse_empty_substitutions" (entry_to (str "a.md"))) ≡ ok opted_in
unfolding main_run fields_run
opts_in = refl

lines_there : split_on b'\n' template_text ≡ template
unfolding split_on
lines_there = refl

not_deleted : is_falsy (get "delete" (entry_to (str "a.md"))) ≡ true
unfolding main_run payload_run
not_deleted = refl

linted-Site_example :
    (is_markdown outside.lower
        (destination_of outside.show (get "destination" (entry_to (str "a.md"))))
      ≡ true)
    × Site no_word rendered opted_in (split_on b'\n' template_text) 2 (codes "<<NOTE>>")
unfolding main_run
linted-Site_example =
    linted-Site outside manifest (entry_to (str "a.md")) entries 0 2 rendered (codes "a.md.tmpl")
      template_text (codes "<<NOTE>>") (codes "NOTE") opted_in manifest_passes refl refl not_deleted
      opts_in refl refl (ap (λ ls. get_elem? ls 2) lines_there) refl note_there renders_empty
