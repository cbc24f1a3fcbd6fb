-- ===== src/AgentLoop/RunState/Commands/Reviews.antt =====
-- The review results of a run over any number of updates. The abstract state is the pair of digests
-- that the latest `converged` update recorded, if no update to an early phase came after it.
use codex_platform.Base.{
  String, ◌≡◌, refl, ap, sym, ◌∙◌, true, List, [], ◌∷◌, Option, none, some, arith, str_eq,
  if◌then◌else◌,
}
use mathlib.Core.Path.{subst}
use codex_platform.Base.Outcome.{ok, ok_inj}
use codex_platform.Base.Value.{Value, null, str, Fields, lookup, lookup-put, elem_str}
use codex_platform.AgentLoop.Failure.{is_digest}
use codex_platform.AgentLoop.Disk.{Disk, Faults}
use codex_platform.AgentLoop.Disk.Write.{read_state-valid}
use codex_platform.AgentLoop.RunState.Validate.{validate, late_phases}
use codex_platform.AgentLoop.RunState.Validate.Passed.{digests_of_phase}
use codex_platform.AgentLoop.RunState.Commands.{
  read, UpdateArgs, with_progress, put_results, is_early, update, show,
}
use codex_platform.AgentLoop.RunState.Commands.Writes.{update_reads_back}
use codex_platform.AgentLoop.RunState.Commands.Update.{
  Results, cleared, recorded, carried, lookup-with_progress, update-Results,
}

abbrev pub Reviews : Type 0
Reviews = Option (String × String)

both : Option String → Option String → Reviews
both (some codex) (some claude) = some (codex, claude)
both _ _ = none

-- What one successful update does to the abstract state.
pub review_step : UpdateArgs → Reviews → Reviews
review_step args r =
    if is_early args.phase
    then none
    else if str_eq args.phase "converged"
    then both args.codex_result_sha256 args.claude_result_sha256
    else r

abbrev codex_value : Reviews → Value
codex_value none = null
codex_value (some (codex, claude)) = str codex

abbrev claude_value : Reviews → Value
claude_value none = null
claude_value (some (codex, claude)) = str claude

-- The two result fields of a state hold `r`.
pub record Holds (r : Reviews) (fs : Fields) : Type 0 where
  pub codex : lookup "codexResultSha256" fs ≡ some (codex_value r)
  pub claude : lookup "claudeResultSha256" fs ≡ some (claude_value r)

put_results-Holds :
    (r : Reviews) (fs : Fields) → Holds r (put_results (codex_value r) (claude_value r) fs)
unfolding put_results
put_results-Holds r fs = record { codex = simp lookup-put; claude = simp lookup-put }

Results-Holds :
    (args : UpdateArgs) (old gs : Fields) (r : Reviews)
    → Holds r old
    → Results args (with_progress args old) gs
    → Holds (review_step args r) gs
unfolding review_step both
Results-Holds args old gs r h (cleared early e) =
    rw (e, early) (put_results-Holds none (with_progress args old))
Results-Holds args old gs r h (recorded c k late converged ec ek e) =
    simp (e, late, converged, ec, ek) (put_results-Holds (some (c, k)) (with_progress args old))
Results-Holds args old gs r h (carried late other e) =
    rw (late, other)
      (record {
        codex =
            ap (lookup "codexResultSha256") e
            ∙ lookup-with_progress _ args old (refl, (refl, (refl, (refl, (refl, tt)))))
            ∙ h.codex;
        claude =
            ap (lookup "claudeResultSha256") e
            ∙ lookup-with_progress _ args old (refl, (refl, (refl, (refl, (refl, tt)))))
            ∙ h.claude;
      })

-- Successful updates of one file, one after the other.
pub data Updates (faults : Faults) (file : String) : Disk → List UpdateArgs → Disk → Type 0 where
  done : {disk : Disk} → Updates faults file disk [] disk
  then_update :
      {disk last : Disk} {rest : List UpdateArgs} (args : UpdateArgs) (fs : Fields)
      → args.file ≡ file
      → (update faults args disk).0 ≡ ok fs
      → Updates faults file (update faults args disk).1 rest last
      → Updates faults file disk (args ∷ rest) last

-- The abstract state after a list of updates.
pub review_steps : List UpdateArgs → Reviews → Reviews
review_steps [] r = r
review_steps (args ∷ rest) r = review_steps rest (review_step args r)

-- What the file shows holds the abstract state.
abbrev pub Shows : String → Disk → Reviews → Type 0
Shows file disk r = (fs : Fields) × (show file disk ≡ ok fs) × Holds r fs

update-Shows :
    (faults : Faults) (args : UpdateArgs) (disk : Disk) (fs : Fields) (r : Reviews)
    → (update faults args disk).0 ≡ ok fs
    → Shows args.file disk r
    → Shows args.file (update faults args disk).1 (review_step args r)
update-Shows faults args disk fs r ran (seen, shown, holds) =
    let (old, read_old, results) = update-Results faults args disk fs ran in
    let same : seen ≡ old = ok_inj (sym shown ∙ read_old) in
    (
      fs,
      (update_reads_back faults args disk fs ran).2,
      Results-Holds args old fs r (rw (← same) holds) results,
    )

-- From a state without review results, the file shows the results of the abstract run.
pub Updates-Shows :
    {faults : Faults} {file : String} {disk last : Disk} {argss : List UpdateArgs} (r : Reviews)
    → Shows file disk r
    → Updates faults file disk argss last
    → Shows file last (review_steps argss r)
unfolding review_steps
Updates-Shows r shown done = shown
Updates-Shows {faults} {file} {disk} r shown (then_update args fs here ran rest) =
    Updates-Shows (review_step args r)
      (subst (λ f. Shows f (update faults args disk).1 (review_step args r)) here
        (update-Shows faults args disk fs r ran (subst (λ f. Shows f disk r) (sym here) shown)))
      rest

late_Reviews :
    (fs : Fields) (p : String) (r : Reviews)
    → validate fs ≡ ok tt
    → lookup "phase" fs ≡ some (str p)
    → elem_str p late_phases ≡ true
    → Holds r fs
    → (c : String) × (k : String) × (r ≡ some (c, k))
      × (is_digest 64 (str c) ≡ true)
      × (is_digest 64 (str k) ≡ true)
late_Reviews fs p none valid phase late h =
    let ((c, hc, _), _) = digests_of_phase fs valid phase late in absurd (ground (arith, h.codex))
late_Reviews fs p (some (c, k)) valid phase late h =
    let ((c', hc, dc), (k', hk, dk)) = digests_of_phase fs valid phase late in
    let same_c : c' ≡ c = ground (arith, h.codex) in
    let same_k : k' ≡ k = ground (arith, h.claude) in
    (
      c,
      k,
      refl,
      subst (λ s. is_digest 64 (str s) ≡ true) same_c dc,
      subst (λ s. is_digest 64 (str s) ≡ true) same_k dk,
    )

-- Take a file that shows no review results, and any list of successful updates of it. If the
-- file then shows the phase converged, finalizing or finalized, the abstract run over the
-- updates ends with a pair of digests: the latest update to `converged` recorded both, no
-- update to an early phase came after it, and both are SHA-256 digests.
pub late_reviews :
    {faults : Faults} {file : String} {disk last : Disk} {argss : List UpdateArgs} (fs : Fields)
    (p : String)
    → Shows file disk none
    → Updates faults file disk argss last
    → show file last ≡ ok fs
    → lookup "phase" fs ≡ some (str p)
    → elem_str p late_phases ≡ true
    → (c : String) × (k : String) × (review_steps argss none ≡ some (c, k))
      × (is_digest 64 (str c) ≡ true)
      × (is_digest 64 (str k) ≡ true)
unfolding read
late_reviews {file} {last} {argss} fs p start run shown phase late =
    let (seen, seen_shown, holds) = Updates-Shows none start run in
    let same : seen ≡ fs = ok_inj (sym seen_shown ∙ shown) in
    late_Reviews fs p (review_steps argss none)
      (read_state-valid "run state" validate last file fs shown) phase late (rw same at holds)
