-- ===== src/Sync/Engine/Run/Safety.antt =====
-- On the loop of `main` of sync-engine.py: the disk and the counts after any number of rounds.
use mathlib.Core.Path.{subst}
use codex_platform.Base.{
  ℕ, suc, ◌+◌, ◌≡◌, refl, ◌∙◌, Bool, true, false, not, List, [], ◌∷◌, none, if◌then◌else◌, arith,
  Bool-cases, inl, inr, ◌⊎◌, length,
}
use codex_platform.Base.Outcome.{Outcome, ok, err, reject, >>-eq-ok, reject-eq-ok}
use codex_platform.Base.Value.{Value}
use codex_platform.Sync.Host.{Host, write_if_changed, prune_empty_parents}
use codex_platform.Sync.Fields.{Refusal}
use codex_platform.Sync.Engine.Settings.{Settings}
use codex_platform.Sync.Engine.Plan.{Plan, skip, remove, preserve, write, below, plan}
use codex_platform.Sync.Engine.Plan.Granted.{plan-Permitted}
use codex_platform.Sync.Engine.Run.{
  Counts, count_write, differs, carry_out, stop, run_targets, is_empty, admission,
  config_write_targets, unconsented_sensitive_writes,
}
use codex_platform.Sync.Engine.Policy.{
  Changes, unchanged, wrote, removed, Permitted, may_remove, may_write,
}

pub Outcome-cases :
    {E A : Type 0} (o : Outcome E A) → ((e : E) × (o ≡ err e)) ⊎ ((a : A) × (o ≡ ok a))
Outcome-cases (ok a) = inr (a, refl)
Outcome-cases (err e) = inl (e, refl)

-- The rounds that the four counts of the summary line stand for.
abbrev pub total : Counts → ℕ
total c = c.written + c.removed + c.skipped + c.unchanged

module _ (host : Host) (settings : Settings) where
  open host use {State, unlink}

  -- One permitted plan, carried out, extends what comes after it.
  carry_out-Changes :
      (p : Plan) (disk last : State) (c : Counts)
      → Permitted host settings disk p
      → Changes host settings (carry_out host settings p disk c).0 last
      → Changes host settings disk last
  unfolding carry_out
  carry_out-Changes skip disk last c may after = after
  carry_out-Changes preserve disk last c may after = after
  carry_out-Changes (remove rel false) disk last c may after = after
  carry_out-Changes (remove rel true) disk last c (may_remove _ _ granted) after =
      let path = below settings.args.consumer rel in
      let gone = prune_empty_parents host settings.args.consumer rel (unlink path disk) in
      let step = λ (b : Bool). Changes host settings (if b then disk else gone) last in
      elim (Bool-cases settings.args.dry_run) [
        | inl dry ↦ subst step dry after
        | inr real ↦ removed rel granted (subst step real after)
      ]
  carry_out-Changes (write rel content bits sensitive) disk last c (may_write _ _ _ _ granted)
        after =
      let path = below settings.args.consumer rel in
      let put = write_if_changed host disk path content bits in
      let step = λ (b : Bool).
        Changes host settings
          (if◌then◌else◌ {A = State × Counts} b
            (disk, count_write host (differs host disk path content bits) sensitive c)
            (put.0, count_write host put.1 sensitive c)).0
          last in
      elim (Bool-cases settings.args.dry_run) [
        | inl dry ↦ subst step dry after
        | inr real ↦ wrote rel content bits granted (subst step real after)
      ]

  run_targets-err :
      (v : Value) (vs : List Value) (disk : State) (c : Counts) (e : Refusal)
      → plan host settings disk v ≡ err e
      → run_targets host settings (v ∷ vs) disk c ≡ stop host e disk c
  unfolding run_targets
  run_targets-err v vs disk c e h = rw (h, run_targets)

  run_targets-ok :
      (v : Value) (vs : List Value) (disk : State) (c : Counts) (p : Plan)
      → plan host settings disk v ≡ ok p
      → run_targets host settings (v ∷ vs) disk c
        ≡ run_targets host settings vs
            (carry_out host settings p disk c).0
            (carry_out host settings p disk c).1
  unfolding run_targets
  run_targets-ok v vs disk c p h = rw (h, run_targets)

  pub run_targets-Changes :
      (vs : List Value) (disk : State) (c : Counts)
      → Changes host settings disk (run_targets host settings vs disk c).disk
  unfolding run_targets stop
  run_targets-Changes [] disk c = unchanged
  run_targets-Changes (v ∷ vs) disk c = elim (Outcome-cases (plan host settings disk v)) [
    | inl (e, h) ↦ rw (run_targets-err v vs disk c e h) unchanged
    | inr (p, h) ↦
        let after = carry_out host settings p disk c in
        rw (run_targets-ok v vs disk c p h) (
          carry_out-Changes p disk _ c (plan-Permitted host settings disk v p h)
            (run_targets-Changes vs after.0 after.1))
  ]

  -- Carried out in a dry run, no plan changes the disk.
  carry_out-dry :
      settings.args.dry_run ≡ true
      → (p : Plan) (disk : State) (c : Counts) → (carry_out host settings p disk c).0 ≡ disk
  unfolding carry_out
  carry_out-dry dry skip disk c = refl
  carry_out-dry dry preserve disk c = refl
  carry_out-dry dry (remove rel false) disk c = refl
  carry_out-dry dry (remove rel true) disk c = rw dry
  carry_out-dry dry (write rel content bits sensitive) disk c = rw dry

  pub run_targets-dry :
      settings.args.dry_run ≡ true
      → (vs : List Value) (disk : State) (c : Counts)
      → (run_targets host settings vs disk c).disk ≡ disk
  unfolding run_targets stop
  run_targets-dry dry [] disk c = refl
  run_targets-dry dry (v ∷ vs) disk c = elim (Outcome-cases (plan host settings disk v)) [
    | inl (e, h) ↦ rw (run_targets-err v vs disk c e h)
    | inr (p, h) ↦
        let after = carry_out host settings p disk c in
        rw (run_targets-ok v vs disk c p h)
          (run_targets-dry dry vs after.0 after.1 ∙ carry_out-dry dry p disk c)
  ]

  count_write-total : (b s : Bool) (c : Counts) → total (count_write host b s c) ≡ suc (total c)
  unfolding count_write
  count_write-total true s c = omega arith
  count_write-total false s c = omega arith

  carry_out-total :
      (p : Plan) (disk : State) (c : Counts)
      → total (carry_out host settings p disk c).1 ≡ suc (total c)
  unfolding carry_out
  carry_out-total skip disk c = omega arith
  carry_out-total preserve disk c = omega arith
  carry_out-total (remove rel false) disk c = omega arith
  carry_out-total (remove rel true) disk c = omega arith
  carry_out-total (write rel content bits sensitive) disk c =
      let path = below settings.args.consumer rel in
      let put = write_if_changed host disk path content bits in
      elim (Bool-cases settings.args.dry_run) [
        | inl dry ↦ rw dry (count_write-total (differs host disk path content bits) sensitive c)
        | inr real ↦ rw real (count_write-total put.1 sensitive c)
      ]

  pub run_targets-total :
      (vs : List Value) (disk : State) (c : Counts)
      → (run_targets host settings vs disk c).refusal ≡ none
      → total (run_targets host settings vs disk c).counts ≡ total c + length vs
  unfolding run_targets stop
  run_targets-total [] disk c over = omega arith
  run_targets-total (v ∷ vs) disk c over = elim (Outcome-cases (plan host settings disk v)) [
    | inl (e, h) ↦ absurd (grind (arith, run_targets-err v vs disk c e h, over))
    | inr (p, h) ↦
        let after = carry_out host settings p disk c in
        rw (run_targets-ok v vs disk c p h) (
          omega (
            arith,
            run_targets-total vs after.0 after.1 (rw (run_targets-ok v vs disk c p h) at over),
            carry_out-total p disk c,
          ))
  ]

  is_empty-nil : (vs : List Value) → not (is_empty host vs) ≡ false → vs ≡ []
  unfolding is_empty
  is_empty-nil [] h = refl
  is_empty-nil (v ∷ vs) h = absurd (ground arith)

  pub admission-ok :
      (vs : List Value) (disk : State)
      → admission host settings vs disk ≡ ok tt
      → (config_write_targets host settings disk vs ≡ [])
        × (unconsented_sensitive_writes host settings disk vs ≡ [])
  unfolding admission
  admission-ok vs disk h =
      let (config, consent) =
        >>-eq-ok (reject (not (is_empty host (config_write_targets host settings disk vs))) _) _
          h in
      (is_empty-nil _ (reject-eq-ok _ _ config), is_empty-nil _ (reject-eq-ok _ _ consent))
