-- ===== src/Commit/Session/Kept.antt =====
-- On `github_api` and the sequence of calls that a run of create-signed-commit.py makes.
use codex_platform.Base.{◌≡◌, refl, String, List, some}
use codex_platform.Base.Outcome.{Outcome, ok, err, or_raise-eq-ok}
use codex_platform.Base.Value.{Value, null, bool, int, real, str, arr, obj, Fields, lookup}
use codex_platform.Commit.Session.{
  Call, Exit, failure, Answer, parsed, http_error, unreachable, Service, Session, continue,
  github_request, fields_or_exit, github_api, item,
}

-- A property of the calls made holds after a bind if the first part keeps it and the rest does.
pub continue-keeps {ℓ κ} :
    {A : Type ℓ} {B : Type κ} (Good : List Call → Type 0) (ended : List Call × Outcome Exit A)
    (next : A → Session B)
    → Good ended.0
    → ((a : A) → ended.1 ≡ ok a → Good (next a ended.0).0)
    → Good (continue ended next).0
continue-keeps Good (made, ok a) next h k = k a refl
continue-keeps Good (made, err code) next h k = h

-- A bind that ends with a value: its first part did, and the rest from there.
pub continue-eq-ok {ℓ κ} :
    {A : Type ℓ} {B : Type κ} (ended : List Call × Outcome Exit A) (next : A → Session B) {b : B}
    → (continue ended next).1 ≡ ok b
    → (a : A) × (ended.1 ≡ ok a)
      × (continue ended next ≡ next a ended.0)
      × ((next a ended.0).1 ≡ ok b)
continue-eq-ok (made, ok a) next h = (a, refl, refl, h)
continue-eq-ok (made, err code) next h = cc

-- A call that gives fields was answered by them.
pub github_api-eq-ok :
    (service : Service) (call : Call) (made : List Call) (fields : Fields)
    → (github_api service call made).1 ≡ ok fields
    → service made call ≡ parsed (obj fields)
unfolding github_api github_request fields_or_exit
github_api-eq-ok service call made fields h = answered (service made call) h
  where
    answered :
        (answer : Answer)
        → fields_or_exit (github_request answer) ≡ ok fields
        → answer ≡ parsed (obj fields)
    answered (parsed (obj fs)) k = cc
    answered (parsed null) k = cc
    answered (parsed (bool b)) k = cc
    answered (parsed (int n)) k = cc
    answered (parsed (real o)) k = cc
    answered (parsed (str s)) k = cc
    answered (parsed (arr vs)) k = cc
    answered (http_error code) k = cc
    answered unreachable k = cc

pub item-eq-ok :
    (fields : Fields) (key : String) (v : Value)
    → item fields key ≡ ok v
    → lookup key fields ≡ some v
unfolding item
item-eq-ok fields key v h = or_raise-eq-ok failure (lookup key fields) h
