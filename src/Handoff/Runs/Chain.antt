-- ===== src/Handoff/Runs/Chain.antt =====
-- On `_run_records` of local-review-handoff.py: the order of the runs through its loops.
use mathlib.Core.Path.{subst}
use codex_platform.Base.{
  ℕ, ◌≤◌, ◌≡◌, refl, ap, sym, ◌⊎◌, true, not, List, [], ◌∷◌, Option, none, some, text_eq, arith,
  All, Option-cases, inl, inr, leb, leb→le, ==_iff, not-false, if_ind,
}
use codex_platform.Base.Outcome.{ok, reject, ◌>>=◌, >>=-eq-ok, >>-eq-ok, reject-eq-ok, ok_inj}
use codex_platform.Handoff.Comments.{conflicting_run, broken_chain}
use codex_platform.Handoff.Runs.{
  Run, insert_run, sort_runs, with_run_id, drop_repeats, Aliases, resolve_all, same_id, check_chain,
  last_run,
}

-- Each run supersedes the one before it, and the first one what is given.
abbrev pub Chain : Option ℕ → List Run → Type 0
Chain parent [] = Unit
Chain parent (r ∷ rs) = (r.supersedes ≡ parent) × Chain (some r.comment_id) rs

-- The comments are in the order of their ids.
abbrev pub Ascending : List Run → Type 0
Ascending [] = Unit
Ascending (r ∷ rs) = All (λ (q : Run). r.comment_id ≤ q.comment_id) rs × Ascending rs

some-eq : {q r : Run} → ◌≡◌ {A = Option Run} (some q) (some r) → q ≡ r
some-eq h = cc

same_id-eq : (a b : Option ℕ) → same_id a b ≡ true → a ≡ b
unfolding same_id
same_id-eq none none h = refl
same_id-eq none (some b) h = cc
same_id-eq (some a) none h = cc
same_id-eq (some a) (some b) h = ap some ((==_iff a b).0 h)

pub check_chain-Chain :
    (parent : Option ℕ) (rs : List Run) → check_chain parent rs ≡ ok tt → Chain parent rs
unfolding check_chain
check_chain-Chain parent [] h = tt
check_chain-Chain parent (r ∷ rs) h =
    let (same, rest) =
      >>-eq-ok (reject (not (same_id r.supersedes parent)) broken_chain)
        (check_chain (some r.comment_id) rs) h in
    (
      same_id-eq r.supersedes parent (not-false _ (reject-eq-ok _ broken_chain same)),
      check_chain-Chain (some r.comment_id) rs rest,
    )

insert_run-All :
    (P : Run → Type 0) (r : Run) (rs : List Run) → P r → All P rs → All P (insert_run r rs)
unfolding insert_run
insert_run-All P r [] h hs = (h, tt)
insert_run-All P r (q ∷ qs) h hs =
    if_ind (All P) (leb r.comment_id q.comment_id) (λ _. (h, hs))
      (λ _. (hs.0, insert_run-All P r qs h hs.1))

pub sort_runs-All : (P : Run → Type 0) (rs : List Run) → All P rs → All P (sort_runs rs)
unfolding sort_runs
sort_runs-All P [] h = tt
sort_runs-All P (r ∷ rs) h = insert_run-All P r (sort_runs rs) h.0 (sort_runs-All P rs h.1)

All-above :
    (a b : ℕ) (rs : List Run)
    → a ≤ b
    → All (λ (q : Run). b ≤ q.comment_id) rs
    → All (λ (q : Run). a ≤ q.comment_id) rs
All-above a b [] h hs = tt
All-above a b (q ∷ qs) h hs = (omega (arith, hs.0), All-above a b qs h hs.1)

insert_run-Ascending : (r : Run) (rs : List Run) → Ascending rs → Ascending (insert_run r rs)
unfolding insert_run
insert_run-Ascending r [] h = (tt, tt)
insert_run-Ascending r (q ∷ qs) h =
    if_ind Ascending (leb r.comment_id q.comment_id)
      (λ first.
        let below = leb→le r.comment_id q.comment_id first in
        ((below, All-above r.comment_id q.comment_id qs below h.0), h))
      (λ later. (
        insert_run-All (λ (p : Run). q.comment_id ≤ p.comment_id) r qs (ground arith) h.0,
        insert_run-Ascending r qs h.1,
      ))

pub sort_runs-Ascending : (rs : List Run) → Ascending (sort_runs rs)
unfolding sort_runs
sort_runs-Ascending [] = tt
sort_runs-Ascending (r ∷ rs) = insert_run-Ascending r (sort_runs rs) (sort_runs-Ascending rs)

-- The result of a round, for a run that is new or repeats one.
dropped-cases :
    (seen : List Run) (r : Run) (rs : List Run) (result : List Run × Aliases)
    → drop_repeats seen (r ∷ rs) ≡ ok result
    → ((rest : List Run × Aliases) × (drop_repeats (r ∷ seen) rs ≡ ok rest)
        × (result.0 ≡ r ∷ rest.0))
      ⊎ ((rest : List Run × Aliases) × (drop_repeats seen rs ≡ ok rest) × (result.0 ≡ rest.0))
unfolding drop_repeats
dropped-cases seen r rs result h = elim (Option-cases (with_run_id r.run_id seen)) [
  | inl fresh ↦
      let (rest, ran, done) =
        >>=-eq-ok (drop_repeats (r ∷ seen) rs) (λ found. ok (r ∷ found.0, found.1))
          (rw (fresh, drop_repeats) at h) in
      inl (rest, ran, ap (λ p. p.0) (sym (ok_inj done)))
  | inr (prior, found) ↦
      let (_, after) =
        >>-eq-ok (reject (not (text_eq prior.body r.body)) conflicting_run)
          (drop_repeats seen rs
            >>= (λ rest. ok (rest.0, (r.comment_id, prior.comment_id) ∷ rest.1)))
          (rw (found, drop_repeats) at h) in
      let (rest, ran, done) = >>=-eq-ok (drop_repeats seen rs) _ after in
      inr (rest, ran, ap (λ p. p.0) (sym (ok_inj done)))
]

-- What is kept of the runs has what all of them have, in their order.
pub drop_repeats-All :
    (P : Run → Type 0) (seen rs : List Run) (result : List Run × Aliases)
    → drop_repeats seen rs ≡ ok result
    → All P rs
    → All P result.0
unfolding drop_repeats
drop_repeats-All P seen [] result h hs = subst (λ l. All P l) (ap (λ p. p.0) (ok_inj h)) tt
drop_repeats-All P seen (r ∷ rs) result h hs = elim (dropped-cases seen r rs result h) [
  | inl (rest, ran, e) ↦
      subst (All P) (sym e) (hs.0, drop_repeats-All P (r ∷ seen) rs rest ran hs.1)
  | inr (rest, ran, e) ↦ subst (All P) (sym e) (drop_repeats-All P seen rs rest ran hs.1)
]

pub drop_repeats-Ascending :
    (seen rs : List Run) (result : List Run × Aliases)
    → drop_repeats seen rs ≡ ok result
    → Ascending rs
    → Ascending result.0
unfolding drop_repeats
drop_repeats-Ascending seen [] result h hs = subst (λ l. Ascending l) (ap (λ p. p.0) (ok_inj h)) tt
drop_repeats-Ascending seen (r ∷ rs) result h hs = elim (dropped-cases seen r rs result h) [
  | inl (rest, ran, e) ↦ subst Ascending (sym e) (
    drop_repeats-All (λ (q : Run). r.comment_id ≤ q.comment_id) (r ∷ seen) rs rest ran hs.0,
    drop_repeats-Ascending (r ∷ seen) rs rest ran hs.1,
  )
  | inr (rest, ran, e) ↦ subst Ascending (sym e) (drop_repeats-Ascending seen rs rest ran hs.1)
]

pub last_run-All :
    (P : Run → Type 0) (rs : List Run) (r : Run) → last_run rs ≡ some r → All P rs → P r
unfolding last_run
last_run-All P [] r h hs = cc
last_run-All P (q ∷ []) r h hs = subst P (some-eq h) hs.0
last_run-All P (q ∷ p ∷ rs) r h hs = last_run-All P (p ∷ rs) r h hs.1

resolve_all-above :
    (a : ℕ) (aliases : Aliases) (rs : List Run)
    → All (λ (q : Run). a ≤ q.comment_id) rs
    → All (λ (q : Run). a ≤ q.comment_id) (resolve_all aliases rs)
unfolding resolve_all
resolve_all-above a aliases [] h = tt
resolve_all-above a aliases (r ∷ rs) h = (h.0, resolve_all-above a aliases rs h.1)

pub resolve_all-Ascending :
    (aliases : Aliases) (rs : List Run) → Ascending rs → Ascending (resolve_all aliases rs)
unfolding resolve_all
resolve_all-Ascending aliases [] h = tt
resolve_all-Ascending aliases (r ∷ rs) h =
    (resolve_all-above r.comment_id aliases rs h.0, resolve_all-Ascending aliases rs h.1)
