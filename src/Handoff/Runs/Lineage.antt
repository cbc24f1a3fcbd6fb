-- ===== src/Handoff/Runs/Lineage.antt =====
-- On `_run_records` of local-review-handoff.py: the runs that it gives.
use mathlib.Core.Path.{subst}
use codex_platform.Base.{
  ℕ, ◌≡◌, refl, not, ◌||◌, List, [], ◌∷◌, Option, none, some, Text, text_eq, text_eq→eq, All,
  Bool-cases, inl, inr, ◌==◌, ==_iff, not-false, or-false, has_prefix,
}
use codex_platform.Base.Outcome.{
  ok, reject, or_raise, ◌>>=◌, >>=-eq-ok, >>-eq-ok, reject-eq-ok, ok_inj, or_raise-eq-ok,
}
use codex_platform.Handoff.Comments.{Comment, malformed_run, cap_disagrees, bad_run_digest}
use codex_platform.Handoff.Runs.{
  tier_cap, RunMatch, Run, Patterns, after_newline, sort_runs, drop_repeats, Aliases, resolve_all,
  check_chain, checked_run, one_match, read_run, read_runs, run_records, with_found, run_prefix,
}
use codex_platform.Handoff.Runs.Chain.{
  Chain, Ascending, check_chain-Chain, sort_runs-All, sort_runs-Ascending, drop_repeats-All,
  drop_repeats-Ascending, resolve_all-Ascending,
}

module _ (patterns : Patterns) where
  open patterns use {run_digest, run_matches}

  -- The text of the comment has one marker, at its start, with the fields of the run; the cap is
  -- the tier's, and the id is the digest of the run, for the superseded comment of the marker.
  pub record Sound (r : Run) : Type 0 where
    pub marker : RunMatch
    pub only : run_matches r.body ≡ marker ∷ []
    pub first : marker.start ≡ 0
    pub content_read : after_newline marker.rest ≡ some r.content
    pub same_fields :
        (marker.tier ≡ r.tier) × (marker.base ≡ r.base) × (marker.start_head ≡ r.start_head)
    pub capped : r.max_rounds ≡ tier_cap r.tier
    pub signed :
        run_digest r.tier r.max_rounds r.base r.start_head marker.supersedes r.content ≡ r.run_id

  resolve_all-Sound :
      (aliases : Aliases) (rs : List Run) → All Sound rs → All Sound (resolve_all aliases rs)
  unfolding resolve_all
  resolve_all-Sound aliases [] h = tt
  resolve_all-Sound aliases (r ∷ rs) h = (
    record {
      marker = h.0.marker;
      only = h.0.only;
      first = h.0.first;
      content_read = h.0.content_read;
      same_fields = h.0.same_fields;
      capped = h.0.capped;
      signed = h.0.signed;
    },
    resolve_all-Sound aliases rs h.1,
  )

  checked_run-Sound :
      (id : ℕ) (body : Text) (m : RunMatch) (r : Run)
      → run_matches body ≡ m ∷ []
      → checked_run patterns id body m ≡ ok r
      → Sound r
  unfolding checked_run
  checked_run-Sound id body m r once h =
      let (started, h1) = >>-eq-ok (reject (not (m.start == 0)) malformed_run) _ h in
      let (content, behind, h2) = >>=-eq-ok (or_raise malformed_run (after_newline m.rest)) _ h1 in
      let (capped, h3) =
        >>-eq-ok (reject (not (m.max_rounds == tier_cap m.tier)) cap_disagrees) _ h2 in
      let expected = run_digest m.tier m.max_rounds m.base m.start_head m.supersedes content in
      let (signed, h4) =
        >>-eq-ok
          (reject (not (text_eq expected m.run_id) || not (text_eq expected m.content_sha))
            bad_run_digest)
          _ h3 in
      let same = (or-false _ _ (reject-eq-ok _ bad_run_digest signed)).0 in
      subst Sound (ok_inj h4) (record {
        marker = m;
        only = once;
        first = (==_iff m.start 0).0 (not-false _ (reject-eq-ok _ _ started));
        content_read = or_raise-eq-ok malformed_run (after_newline m.rest) behind;
        same_fields = (refl, refl, refl);
        capped = (==_iff m.max_rounds (tier_cap m.tier)).0 (not-false _ (reject-eq-ok _ _ capped));
        signed = text_eq→eq expected m.run_id (not-false _ same);
      })

  one_match-Sound :
      (id : ℕ) (body : Text) (ms : List RunMatch) (r : Run)
      → run_matches body ≡ ms
      → one_match patterns id body ms ≡ ok r
      → Sound r
  unfolding one_match
  one_match-Sound id body [] r found h = cc
  one_match-Sound id body (m ∷ []) r found h = checked_run-Sound id body m r found h
  one_match-Sound id body (m ∷ n ∷ ms) r found h = cc

  abbrev FoundSound : Option Run → Type 0
  FoundSound none = Unit
  FoundSound (some r) = Sound r

  matched-Sound :
      (id : ℕ) (body : Text) (found : Option Run)
      → (one_match patterns id body (run_matches body) >>= (λ r. ok (some r))) ≡ ok found
      → FoundSound found
  matched-Sound id body found h =
      let (r, matched, e) =
        >>=-eq-ok (one_match patterns id body (run_matches body)) (λ r. ok (some r)) h in
      subst FoundSound (ok_inj e) (one_match-Sound id body (run_matches body) r refl matched)

  read_run-Sound :
      (id : Option ℕ) (body : Option Text) (found : Option Run)
      → read_run patterns id body ≡ ok found
      → FoundSound found
  unfolding read_run
  read_run-Sound none body found h = subst FoundSound (ok_inj h) tt
  read_run-Sound (some id) none found h = subst FoundSound (ok_inj h) tt
  read_run-Sound (some id) (some body) found h = elim (Bool-cases (has_prefix run_prefix body)) [
    | inl marked ↦ matched-Sound id body found (rw (marked, read_run) at h)
    | inr other ↦ subst FoundSound (ok_inj (rw (other, read_run) at h)) tt
  ]

  with_found-Sound :
      (found : Option Run) (rs : List Run)
      → FoundSound found
      → All Sound rs
      → All Sound (with_found found rs)
  with_found-Sound none rs h hs = hs
  with_found-Sound (some r) rs h hs = (h, hs)

  read_runs-Sound :
      (rows : List Comment) (rs : List Run) → read_runs patterns rows ≡ ok rs → All Sound rs
  unfolding read_runs
  read_runs-Sound [] rs h = subst (All Sound) (ok_inj h) tt
  read_runs-Sound (row ∷ rows) rs h =
      let (found, read, h1) = >>=-eq-ok (read_run patterns row.id row.body) _ h in
      let (rest, read_rest, h2) = >>=-eq-ok (read_runs patterns rows) _ h1 in
      subst (All Sound) (ok_inj h2) (
        with_found-Sound found rest (read_run-Sound row.id row.body found read)
          (read_runs-Sound rows rest read_rest))

  -- What holds of the runs that are read.
  pub record Lineage (rs : List Run) : Type 0 where
    pub chain : Chain none rs
    pub sound : All Sound rs
    pub ascending : Ascending rs

  -- The runs that `_run_records` gives form one chain: the first supersedes none, each other
  -- one the one before it, and no later run has a smaller comment id. The comment of each has
  -- one marker, at its start, with the tier, the base and the head of the run, and the run's
  -- content behind it; the cap is that of the tier, and the run's id is the digest of its
  -- fields and of the superseded comment that the marker names.
  pub run_records-Lineage :
      (rows : List Comment) (records : List Run)
      → run_records patterns rows ≡ ok records
      → Lineage records
  unfolding run_records
  run_records-Lineage rows records h =
      let (found, read, h1) = >>=-eq-ok (read_runs patterns rows) _ h in
      let (kept, dropped, h2) = >>=-eq-ok (drop_repeats [] (sort_runs found)) _ h1 in
      let (chained, h3) = >>-eq-ok (check_chain none (resolve_all kept.1 kept.0)) _ h2 in
      subst Lineage (ok_inj h3) (record {
        chain = check_chain-Chain none (resolve_all kept.1 kept.0) chained;
        sound = resolve_all-Sound kept.1 kept.0 (
            drop_repeats-All Sound [] (sort_runs found) kept dropped
              (sort_runs-All Sound found (read_runs-Sound rows found read)));
        ascending =
            resolve_all-Ascending kept.1 kept.0 (
              drop_repeats-Ascending [] (sort_runs found) kept dropped (sort_runs-Ascending found));
      })
