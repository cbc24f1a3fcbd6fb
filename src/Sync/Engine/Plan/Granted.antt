-- ===== src/Sync/Engine/Plan/Granted.antt =====
-- On the guards of a round of `main` of sync-engine.py, against the policy.
use mathlib.Core.Path.{subst}
use codex_platform.Base.{
  ◌≡◌, ap, sym, ◌∙◌, Bool, true, false, not, ◌&&◌, ◌||◌, Option, none, some, Text, codes, text_eq,
  if◌then◌else◌, arith, Bool-cases, inl, inr, ◌⊎◌, text_eq→eq, not-false,
}
use codex_platform.Base.Outcome.{ok, reject, >>=-eq-ok, >>-eq-ok, reject-eq-ok, ok_inj}
use codex_platform.Base.Value.{Value, elem_str}
use codex_platform.Sync.Sensitive.{is_sensitive_write_dest, is_sensitive_delete_dest}
use codex_platform.Sync.Paths.{Segments, same_path, join_slash, resolve_under}
use codex_platform.Sync.Host.{Host}
use codex_platform.Sync.Render.Collapse.{has_text}
use codex_platform.Sync.Engine.Target.{Target, parse_target}
use codex_platform.Sync.Engine.Settings.{Settings}
use codex_platform.Sync.Engine.Plan.{
  Plan, remove, write, is_allowed, below, source_is_skipped, canonical_of, canonical_dest,
  is_real_dir, is_there, plan_delete, source_path, rendered, plan_write, plan_copy, plan_dest,
  plan_target, plan,
}
use codex_platform.Sync.Engine.Policy.{
  Admitted, Permitted, may_skip, may_preserve, may_remove, may_write,
}

canonical_of-inv :
    (dest : Text) (o : Option Segments) (rel : Segments)
    → canonical_of dest o ≡ ok rel
    → (o ≡ some rel) × (join_slash rel ≡ dest)
unfolding canonical_of
canonical_of-inv dest none rel h = absurd (ground (arith, h))
canonical_of-inv dest (some r) rel h = elim (Bool-cases (text_eq (join_slash r) dest)) [
  | inl same ↦
      let e : r ≡ rel = ok_inj (rw same at h) in
      (ap some e, ap join_slash (sym e) ∙ text_eq→eq _ _ same)
  | inr other ↦ absurd (ground arith)
]

consent_cases : (a b : Bool) → (a && not b) ≡ false → (a ≡ false) ⊎ (b ≡ true)
consent_cases a b h = ground arith

module _ (host : Host) (settings : Settings) where
  open host use {State, is_file, resolve, read}

  plan_write-Permitted :
      (disk : State) (target : Target) (rel : Segments) (p : Plan)
      → Admitted host settings rel
      → plan_write host settings disk target (join_slash rel) rel ≡ ok p
      → Permitted host settings disk p
  unfolding plan_write
  plan_write-Permitted disk target rel p admitted h =
      let path = below settings.args.consumer rel in
      let dest = join_slash rel in
      let (config, h) =
        >>-eq-ok (reject (same_path (resolve disk path) settings.args.config_path) _) _ h in
      let (consent, h) =
        >>-eq-ok (reject (is_sensitive_write_dest dest && not (has_text dest settings.consent)) _) _
          h in
      let (source, es, h) = >>=-eq-ok (source_path settings.args.upstream target.source) _ h in
      let (_, h) = >>-eq-ok (reject (not (is_file disk source)) _) _ h in
      let (content, ec, last) =
        >>=-eq-ok (rendered _)
          (λ content. ok (write rel content target.mode (is_sensitive_write_dest dest))) h in
      subst (Permitted host settings disk) (ok_inj last) (
        may_write rel content target.mode (is_sensitive_write_dest dest) (record {
          admitted = admitted;
          no_config = reject-eq-ok _ _ config;
          consented = consent_cases (is_sensitive_write_dest dest) _ (reject-eq-ok _ _ consent);
        }))

  plan_delete-Permitted :
      (disk : State) (rel : Segments) (p : Plan)
      → Admitted host settings rel
      → plan_delete host disk settings.args.consumer (join_slash rel) rel ≡ ok p
      → Permitted host settings disk p
  unfolding plan_delete
  plan_delete-Permitted disk rel p admitted h =
      let path = below settings.args.consumer rel in
      let (guard, h) = >>-eq-ok (reject (is_sensitive_delete_dest (join_slash rel)) _) _ h in
      let (_, last) =
        >>-eq-ok (reject (is_real_dir host disk path) _) (ok (remove rel (is_there host disk path)))
          h in
      subst (Permitted host settings disk) (ok_inj last) (
        may_remove rel (is_there host disk path)
          (record { admitted = admitted; no_guard = reject-eq-ok _ _ guard }))

  plan_copy-Permitted :
      (disk : State) (target : Target) (rel : Segments) (p : Plan)
      → Admitted host settings rel
      → plan_copy host settings disk target (join_slash rel) rel ≡ ok p
      → Permitted host settings disk p
  unfolding plan_copy
  plan_copy-Permitted disk target rel p admitted h =
      let path = below settings.args.consumer rel in
      let (_, h) =
        >>-eq-ok (reject (target.create_if_missing && is_real_dir host disk path) _) _ h in
      elim (Bool-cases (target.create_if_missing && is_there host disk path)) [
        | inl there ↦ subst (Permitted host settings disk) (ok_inj (rw there at h)) may_preserve
        | inr absent ↦ plan_write-Permitted disk target rel p admitted (rw absent at h)
      ]

  plan_dest-Permitted :
      (disk : State) (target : Target) (p : Plan)
      → plan_dest host settings disk target ≡ ok p
      → Permitted host settings disk p
  unfolding plan_dest canonical_dest
  plan_dest-Permitted disk target p h =
      let dest = codes target.destination in
      let (rel, er, h) =
        >>=-eq-ok (canonical_of dest (resolve_under settings.args.consumer dest)) _ h in
      let (allowed, h) = >>-eq-ok (reject (not (is_allowed settings dest)) _) _ h in
      let (resolved, same) = canonical_of-inv dest _ rel er in
      let admitted : Admitted host settings rel = record {
        inside = subst (λ d. resolve_under settings.args.consumer d ≡ some rel) (sym same) resolved;
        allowed =
            subst (λ d. is_allowed settings d ≡ true) (sym same)
              (not-false _ (reject-eq-ok _ _ allowed));
      } in
      elim (Bool-cases target.delete) [
        | inl deleting ↦ plan_delete-Permitted disk rel p admitted (
            subst (λ d. plan_delete host disk settings.args.consumer d rel ≡ ok p) (sym same)
              (subst
                (λ b.
                  (if b
                    then plan_delete host disk settings.args.consumer dest rel
                    else plan_copy host settings disk target dest rel)
                  ≡ ok p)
                deleting h))
        | inr copying ↦ plan_copy-Permitted disk target rel p admitted (
            subst (λ d. plan_copy host settings disk target d rel ≡ ok p) (sym same)
              (subst
                (λ b.
                  (if b
                    then plan_delete host disk settings.args.consumer dest rel
                    else plan_copy host settings disk target dest rel)
                  ≡ ok p)
                copying h))
      ]

  pub plan-Permitted :
      (disk : State) (v : Value) (p : Plan)
      → plan host settings disk v ≡ ok p
      → Permitted host settings disk p
  unfolding plan plan_target
  plan-Permitted disk v p h =
      let (target, et, h) = >>=-eq-ok (parse_target settings.args.printable v) _ h in
      elim (Bool-cases (
        source_is_skipped settings.skip target.source
        || elem_str target.destination settings.skip)) [
          | inl skipped ↦ subst (Permitted host settings disk) (ok_inj (rw skipped at h)) may_skip
          | inr taken ↦ plan_dest-Permitted disk target p (rw taken at h)
        ]
