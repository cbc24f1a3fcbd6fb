-- ===== src/Commit/Session.antt =====
-- The calls of GitHub's REST API that create-signed-commit.py makes, and `_github_request`,
-- `github_api` and `github_api_optional`, which make them. What the service answers is a parameter:
-- any function of the calls before and the call.
pub mod Kept
use codex_platform.Base.{
  ℕ, ◌≡◌, String, Bool, true, false, List, [], ◌∷◌, Option, none, some, Text, ◌==◌,
}
use codex_platform.Base.Outcome.{Outcome, ok, err, or_raise, reject}
use codex_platform.Base.Value.{Value, obj, Fields, lookup}

-- How the process ends when it does not end well: with code 1, or 2 for a bad invocation.
pub data Exit : Type 0 where
  failure misuse : Exit

-- One entry of a new tree; a null `sha` takes the path out of it.
pub record TreeEntry : Type 0 where
  pub path : Text
  pub mode : Text
  pub sha : Value

-- A method with an endpoint of the repository and a body. `patch_ref` forces the update.
pub data Call : Type 0 where
  get_ref : (branch : Text) → Call
  get_commit : (sha : Value) → Call
  post_blob : (content : Text) → Call
  post_tree : (base_tree : Value) (entries : List TreeEntry) → Call
  post_commit : (message : Text) (tree : Value) (parents : List Value) → Call
  post_ref : (branch : Text) (sha : Value) → Call
  patch_ref : (branch : Text) (sha : Value) → Call

-- Parsed JSON, an HTTP error with its code, or no answer at all.
pub data Answer : Type 0 where
  parsed : Value → Answer
  http_error : ℕ → Answer
  unreachable : Answer

abbrev pub Service : Type 0
Service = List Call → Call → Answer

-- A part of the run: from the calls made so far, the last one first, to those made after it, with
-- a value or the way that the process ends.
abbrev pub Session {ℓ} : Type ℓ → Type ℓ
Session A = List Call → List Call × Outcome Exit A

module _ {ℓ} {A : Type ℓ} where
  abbrev pub return : A → Session A
  return a made = (made, ok a)

  abbrev pub lift : Outcome Exit A → Session A
  lift outcome made = (made, outcome)

-- The rest of a run, after a part that may have ended it.
abbrev pub continue {ℓ κ} :
    {A : Type ℓ} {B : Type κ}
    → List Call × Outcome Exit A
    → (A → Session B)
    → List Call × Outcome Exit B
continue (made, ok a) next = next a made
continue (made, err code) next = (made, err code)

infixl 5 ◌>>=◌
abbrev pub ◌>>=◌ {ℓ κ} : {A : Type ℓ} {B : Type κ} → Session A → (A → Session B) → Session B
(first >>= next) made = continue (first made) next

infixl 5 ◌>>◌
abbrev pub ◌>>◌ {ℓ} : {B : Type ℓ} → Session (Unit {0}) → Session B → Session B
first >> next = first >>= λ _. next

-- `if bad: return 1`
abbrev pub refuse : Bool → Session (Unit {0})
refuse bad made = (made, reject bad failure)

-- What `_github_request` ends with: a mapping, an HTTPError, or an exit with code 1.
pub data Response : Type 0 where
  mapping : Fields → Response
  failed : ℕ → Response
  exited : Response

pub github_request : Answer → Response
github_request (parsed (obj fs)) = mapping fs
github_request (parsed _) = exited
github_request (http_error code) = failed code
github_request unreachable = exited

-- Every error is fatal.
pub fields_or_exit : Response → Outcome Exit Fields
fields_or_exit (mapping fs) = ok fs
fields_or_exit _ = err failure

-- A 404 is no error.
pub fields_or_missing : Response → Outcome Exit (Option Fields)
fields_or_missing (mapping fs) = ok (some fs)
fields_or_missing (failed code) = elim (code == 404) [ true ↦ ok none | false ↦ err failure ]
fields_or_missing exited = err failure

module _ (service : Service) where
  unfoldable pub github_api : Call → Session Fields
  github_api call made = (call ∷ made, fields_or_exit (github_request (service made call)))

  unfoldable pub github_api_optional : Call → Session (Option Fields)
  github_api_optional call made =
      (call ∷ made, fields_or_missing (github_request (service made call)))

-- `fields[key]`, and `value[key]`; a KeyError or a TypeError ends the process with code 1.
pub item : Fields → String → Outcome Exit Value
item fields key = or_raise failure (lookup key fields)

pub item_of : Value → String → Outcome Exit Value
item_of (obj fs) key = item fs key
item_of _ key = err failure

-- Names what a call opens.
unfoldable pub session_run : Unit {0}
unfolding github_request fields_or_exit fields_or_missing github_api github_api_optional item
    item_of
session_run = tt
