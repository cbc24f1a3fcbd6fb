-- ===== src/Lint/Main.antt =====
-- `main` of lint-collapse-sites.py, on the parsed manifest.
pub mod Linted
use codex_platform.Base.{
  ℕ, String, Bool, true, false, ◌||◌, List, [], ◌∷◌, ◌++◌, Option, none, some, Text, codes, text_eq,
  split_on, if◌then◌else◌, map,
}
use codex_platform.Base.Outcome.{Outcome, ok, err, or_raise, ◌>>=◌}
use codex_platform.Base.Value.{Value, null, str, arr, obj, Fields, to_list, lookup, keys}
use codex_platform.Sync.Fields.{text_list}
use codex_platform.Commit.Payload.{is_falsy}
use codex_platform.Lint.Check.{Violation, sorted_set, check_source}

-- What ends the script with a traceback.
pub data Raised : Type 0 where
  attribute_error type_error key_error os_error : Raised

pub data Complaint : Type 0 where
  non_markdown : (source key destination : Text) → Complaint
  in_source : (source : Text) (violation : Violation) → Complaint

-- `str.lower`, the text of a file below the repository's root, `str()` of what is neither text nor
-- false, and the word characters of a regular expression.
pub record Outside : Type 0 where
  pub lower : Text → Text
  pub read_text : Text → Option Text
  pub show : Value → Text
  pub is_word : ℕ → Bool

pub as_mapping : Value → Outcome Raised Fields
as_mapping (obj fs) = ok fs
as_mapping _ = err attribute_error

-- `fields.get(key)`
pub get : String → Fields → Value
get key fs = elim (lookup key fs) [ none ↦ null | some v ↦ v ]

-- A text or a dict that is not empty iterates over texts, which have no `get`.
pub iterated : Value → Outcome Raised (List Value)
iterated (arr vs) = ok (to_list vs)
iterated (str _) = err attribute_error
iterated (obj _) = err attribute_error
iterated _ = err type_error

pub targets_of : Value → Outcome Raised (List Value)
targets_of v = if is_falsy v then ok [] else iterated v

-- A list with an element that is no text raises where it is hashed, sorted or matched; that a
-- destination other than Markdown lets such elements through is left out.
pub key_texts : Value → Outcome Raised (List Text)
key_texts (str s) = ok (map (λ c. c ∷ []) (codes s))
key_texts (obj fs) = ok (map codes (keys fs))
key_texts v = or_raise type_error (text_list v) >>= (λ ss. ok (map codes ss))

pub source_of : Option Value → Outcome Raised Text
source_of none = err key_error
source_of (some (str s)) = ok (codes s)
source_of (some _) = err type_error

pub destination_of : (Value → Text) → Value → Text
destination_of show (str s) = codes s
destination_of show v = if is_falsy v then [] else show v

-- `text.endswith(suffix)`
ends_in : Text → Text → Bool
ends_in suffix [] = text_eq suffix []
ends_in suffix (c ∷ s) = text_eq suffix (c ∷ s) || ends_in suffix s

pub is_markdown : (Text → Text) → Text → Bool
is_markdown lower dest =
    ends_in (codes ".md") (lower dest) || ends_in (codes ".markdown") (lower dest)

pub not_markdown : Text → Text → List Text → List Complaint
not_markdown source dest [] = []
not_markdown source dest (k ∷ ks) = non_markdown source k dest ∷ not_markdown source dest ks

-- The exit code, where nothing raises.
pub exit_code : List Complaint → ℕ
exit_code [] = 0
exit_code (c ∷ cs) = 1

module _ (outside : Outside) where
  open outside use {lower, read_text, show, is_word}

  pub source_complaints : Text → List Text → Outcome Raised (List Complaint)
  source_complaints source collapse = do
    text ← or_raise os_error (read_text source)
    ok (map (in_source source) (check_source is_word (split_on b'\n' text) collapse))

  pub opted_in : Fields → List Text → Outcome Raised (List Complaint)
  opted_in fs collapse = do
    source ← source_of (lookup "source" fs)
    let dest = destination_of show (get "destination" fs)
    if is_markdown lower dest
        then source_complaints source collapse
        else ok (not_markdown source dest (sorted_set collapse))

  pub wanted : Fields → Value → Outcome Raised (List Complaint)
  wanted fs v = if is_falsy v then ok [] else key_texts v >>= opted_in fs

  -- One round of the loop.
  pub target_complaints : Fields → Outcome Raised (List Complaint)
  target_complaints fs =
      if is_falsy (get "delete" fs)
      then wanted fs (get "collapse_empty_substitutions" fs)
      else ok []

  pub complaints : List Value → Outcome Raised (List Complaint)
  complaints [] = ok []
  complaints (v ∷ vs) = do
    fs ← as_mapping v
    here ← target_complaints fs
    later ← complaints vs
    ok (here ++ later)

  pub main : Value → Outcome Raised ℕ
  main manifest = do
    fs ← as_mapping manifest
    targets ← targets_of (get "targets" fs)
    found ← complaints targets
    ok (exit_code found)

-- Names what a run of `main` opens.
unfoldable pub main_run : Unit {0}
unfolding as_mapping get iterated targets_of key_texts source_of destination_of ends_in is_markdown
    not_markdown source_complaints opted_in wanted target_complaints complaints exit_code main
main_run = tt
