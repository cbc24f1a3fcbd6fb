-- ===== src/AgentLoop/RunState/Validate/Passed.antt =====
-- On `_validate` of agent-loop-state.py: its paragraphs taken apart, and those on the phase, the
-- engine and the review results.
use codex_platform.Base.{
  String, ◌≡◌, refl, Bool, true, false, ◌⊎◌, inl, inr, some, arith, str_eq, str_eq_iff, Bool-cases,
}
use codex_platform.Base.Outcome.{ok, >>-eq-ok, >>=-eq-ok}
use codex_platform.Base.Value.{Value, null, str, Fields, lookup, elem_str}
use codex_platform.AgentLoop.Failure.{item, is_digest}
use codex_platform.AgentLoop.RunState.Validate.{
  check_keys, check_version, check_texts, check_numbers, check_budget, check_shas, check_phase,
  check_engine, check_results, check_digests, check_git_config, check_project, check_converged,
  check_paths, check_engine_value, check_result, is_null, check_converged_values, late_phases,
  lacks_result, validate,
}

pub record Passed (fs : Fields) : Type 0 where
  pub key_set : check_keys fs ≡ ok tt
  pub version : check_version fs ≡ ok tt
  pub texts : check_texts fs ≡ ok tt
  pub numbers : check_numbers fs ≡ ok tt
  pub budget : check_budget fs ≡ ok tt
  pub shas : check_shas fs ≡ ok tt
  pub phase : check_phase fs ≡ ok tt
  pub engine : check_engine fs ≡ ok tt
  pub results : check_results fs ≡ ok tt
  pub digests : check_digests fs ≡ ok tt
  pub git_config : check_git_config fs ≡ ok tt
  pub project : check_project fs ≡ ok tt
  pub converged : check_converged fs ≡ ok tt
  pub paths : check_paths fs ≡ ok tt

pub validate-Passed : (fs : Fields) → validate fs ≡ ok tt → Passed fs
unfolding validate
validate-Passed fs h =
    let (a, h) = >>-eq-ok (check_keys fs) _ h in
    let (b, h) = >>-eq-ok (check_version fs) _ h in
    let (c, h) = >>-eq-ok (check_texts fs) _ h in
    let (d, h) = >>-eq-ok (check_numbers fs) _ h in
    let (e, h) = >>-eq-ok (check_budget fs) _ h in
    let (f, h) = >>-eq-ok (check_shas fs) _ h in
    let (g, h) = >>-eq-ok (check_phase fs) _ h in
    let (i, h) = >>-eq-ok (check_engine fs) _ h in
    let (j, h) = >>-eq-ok (check_results fs) _ h in
    let (k, h) = >>-eq-ok (check_digests fs) _ h in
    let (l, h) = >>-eq-ok (check_git_config fs) _ h in
    let (m, h) = >>-eq-ok (check_project fs) _ h in
    let (n, o) = >>-eq-ok (check_converged fs) _ h in
    record {
      key_set = a;
      version = b;
      texts = c;
      numbers = d;
      budget = e;
      shas = f;
      phase = g;
      engine = i;
      results = j;
      digests = k;
      git_config = l;
      project = m;
      converged = n;
      paths = o;
    }

-- What the engine paragraph accepts, for a phase that is or is not `reviewing`.
engine_value_cases :
    (reviewing : Bool) (e : Value)
    → check_engine_value reviewing e ≡ ok tt
    → ((reviewing ≡ true) × ((e ≡ str "codex") ⊎ (e ≡ str "claude")))
      ⊎ ((reviewing ≡ false) × (e ≡ null))
unfolding check_engine_value
engine_value_cases true (str s) h = ground (arith, str_eq_iff "codex" s, str_eq_iff "claude" s)
engine_value_cases true _ h = cc
engine_value_cases false null h = inr (refl, refl)
engine_value_cases false _ h = cc

-- In a valid run state whose phase is text, either the phase is `reviewing` and the engine is
-- `codex` or `claude`, or the phase is another and the engine is null.
pub engine_of_phase :
    (fs : Fields) {p : String} {e : Value}
    → validate fs ≡ ok tt
    → lookup "phase" fs ≡ some (str p)
    → lookup "reviewEngine" fs ≡ some e
    → ((str_eq p "reviewing" ≡ true) × ((e ≡ str "codex") ⊎ (e ≡ str "claude")))
      ⊎ ((str_eq p "reviewing" ≡ false) × (e ≡ null))
unfolding check_engine
engine_of_phase fs {p} {e} h hp he =
    engine_value_cases (str_eq p "reviewing") e (ground (arith, (validate-Passed fs h).engine))

-- The key is present with a value that is no null, and this value is a SHA-256 digest.
abbrev pub HasDigest : Fields → String → Type 0
HasDigest fs key = (s : String) × (lookup key fs ≡ some (str s)) × (is_digest 64 (str s) ≡ true)

result_digest :
    (fs : Fields) (key : String) (v : Value)
    → lookup key fs ≡ some v
    → is_null v ≡ false
    → check_result fs key ≡ ok tt
    → HasDigest fs key
unfolding check_result
result_digest fs key (str s) hv hn h = (s, hv, ground (arith, h))
result_digest fs key null hv hn h = cc
result_digest fs key _ hv hn h = absurd (ground (arith, h))

-- A value that stands at the key and is no null.
abbrev HasValue : Fields → String → Type 0
HasValue fs key = (v : Value) × (lookup key fs ≡ some v) × (is_null v ≡ false)

item-HasValue :
    (fs : Fields) (key : String) (v : Value)
    → item fs key ≡ ok v
    → is_null v ≡ false
    → HasValue fs key
item-HasValue fs key v h n = (v, ground arith, n)

lacks_result-false :
    (fs : Fields)
    → lacks_result fs ≡ ok false
    → HasValue fs "codexResultSha256" × HasValue fs "claudeResultSha256"
unfolding lacks_result
lacks_result-false fs h =
    let (c, ec, rest) = >>=-eq-ok (item fs "codexResultSha256") _ h in
    elim (Bool-cases (is_null c)) [
      | inl null_c ↦ absurd (ground arith)
      | inr filled ↦
          let (k, ek, last) =
            >>=-eq-ok (item fs "claudeResultSha256") (λ claude. ok (is_null claude))
              {end_value = false} (ground arith) in
          (item-HasValue fs _ c ec filled, item-HasValue fs _ k ek (ground arith))
    ]

converged-lacks :
    (fs : Fields) (p : String)
    → lookup "phase" fs ≡ some (str p)
    → elem_str p late_phases ≡ true
    → check_converged fs ≡ ok tt
    → lacks_result fs ≡ ok false
unfolding check_converged check_converged_values
converged-lacks fs p hp late h = ground arith

-- In a valid run state whose phase is converged, finalizing or finalized, both review results
-- are there, are not null and are SHA-256 digests.
pub digests_of_phase :
    (fs : Fields) {p : String}
    → validate fs ≡ ok tt
    → lookup "phase" fs ≡ some (str p)
    → elem_str p late_phases ≡ true
    → HasDigest fs "codexResultSha256" × HasDigest fs "claudeResultSha256"
unfolding check_results
digests_of_phase fs {p} h hp late =
    let passed = validate-Passed fs h in
    let ((c, hc, nc), (k, hk, nk)) =
      lacks_result-false fs (converged-lacks fs p hp late passed.converged) in
    let (first, rest) = >>-eq-ok (check_result fs "codexResultSha256") _ passed.results in
    let (second, _) = >>-eq-ok (check_result fs "claudeResultSha256") _ rest in
    (result_digest fs _ c hc nc first, result_digest fs _ k hk nk second)
