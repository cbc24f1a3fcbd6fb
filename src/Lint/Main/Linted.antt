-- ===== src/Lint/Main/Linted.antt =====
-- On `main` of lint-collapse-sites.py and `drop_empty_placeholder_lines` of sync-engine.py: the
-- sites of a manifest that the lint passes.
use mathlib.Core.Path.{subst}
use codex_platform.Base.{
  ℕ, zero, suc, ◌≡◌, refl, sym, ap, ◌∙◌, true, List, [], ◌∷◌, ◌++◌, some, Text, codes, map, arith,
  get_elem?, split_on, Bool-cases, inl, inr, str_eq_iff,
}
use codex_platform.Base.Outcome.{Outcome, ok, ◌>>=◌, >>=-eq-ok, ok_inj}
use codex_platform.Base.Value.{
  Value, null, bool, int, real, str, arr, obj, nil, cons, end, field, Fields, Items, to_list,
  lookup,
}
use codex_platform.Commit.Payload.{is_falsy, payload_run}
use codex_platform.Sync.Fields.{fields_run}
use codex_platform.Sync.Render.Collapse.{has_text, Rendered, value_of}
use codex_platform.Lint.Check.{Violation, sorted_set, line_keys, check_source}
use codex_platform.Lint.Check.Sound.{Site, checked-Site, sorted_set-filled}
use codex_platform.Lint.Main.{
  Complaint, in_source, Outside, Raised, as_mapping, get, targets_of, key_texts, source_of,
  destination_of, is_markdown, not_markdown, iterated, exit_code, source_complaints, opted_in,
  wanted, target_complaints, complaints, main,
}

exit_code-zero : (found : List Complaint) → exit_code found ≡ 0 → found ≡ []
unfolding exit_code
exit_code-zero [] h = refl
exit_code-zero (c ∷ cs) h = ground arith

append-nil_parts : (xs ys : List Complaint) → xs ++ ys ≡ [] → (xs ≡ []) × (ys ≡ [])
append-nil_parts [] ys h = (refl, h)
append-nil_parts (x ∷ xs) ys h = cc

in_source-nil : (source : Text) (vs : List Violation) → map (in_source source) vs ≡ [] → vs ≡ []
in_source-nil source [] h = refl
in_source-nil source (v ∷ vs) h = cc

-- A false value lists no keys.
is_falsy-no_keys :
    (v : Value) (collapse : List Text)
    → is_falsy v ≡ true
    → key_texts v ≡ ok collapse
    → collapse ≡ []
unfolding payload_run fields_run key_texts
is_falsy-no_keys null collapse f h = cc
is_falsy-no_keys (bool b) collapse f h = cc
is_falsy-no_keys (int n) collapse f h = cc
is_falsy-no_keys (real n) collapse f h = cc
is_falsy-no_keys (str s) collapse f h =
    let same : s ≡ "" = ground (arith, str_eq_iff s "") in
    sym (ok_inj h) ∙ ap (λ t. map (λ c. c ∷ []) (codes t)) same
is_falsy-no_keys (arr nil) collapse f h = cc
is_falsy-no_keys (arr (cons w ws)) collapse f h = cc
is_falsy-no_keys (obj end) collapse f h = cc
is_falsy-no_keys (obj (field k w fs)) collapse f h = cc

not_markdown-nil :
    (source dest : Text) (ks : List Text) → not_markdown source dest ks ≡ [] → ks ≡ []
unfolding not_markdown
not_markdown-nil source dest [] h = refl
not_markdown-nil source dest (k ∷ ks) h = cc

targets_of-arr :
    (vs : Items) (targets : List Value) → targets_of (arr vs) ≡ ok targets → targets ≡ to_list vs
unfolding targets_of iterated payload_run
targets_of-arr nil targets h = sym (ok_inj h)
targets_of-arr (cons v vs) targets h = sym (ok_inj h)

module _ (outside : Outside) where
  first_or_later :
      (v : Value) (vs : List Value) (j : ℕ) (fs : Fields) {gs : Fields}
      → get_elem? (v ∷ vs) j ≡ some (obj fs)
      → as_mapping v ≡ ok gs
      → target_complaints outside gs ≡ ok []
      → ((i : ℕ) → get_elem? vs i ≡ some (obj fs) → target_complaints outside fs ≡ ok [])
      → target_complaints outside fs ≡ ok []
  unfolding as_mapping
  first_or_later v vs zero fs found mapped here later =
      let same : v ≡ obj fs = cc in
      let mapped1 : as_mapping (obj fs) ≡ ok _ = sym (ap as_mapping same) ∙ mapped in
      subst (λ g. target_complaints outside g ≡ ok []) (sym (ok_inj mapped1)) here
  first_or_later v vs (suc j) fs found mapped here later = later j found

  complaints-at :
      (vs : List Value) (j : ℕ) (fs : Fields)
      → complaints outside vs ≡ ok []
      → get_elem? vs j ≡ some (obj fs)
      → target_complaints outside fs ≡ ok []
  unfolding complaints
  complaints-at [] j fs h found = cc
  complaints-at (v ∷ vs) j fs h found =
      let rest : List Complaint → Outcome Raised (List Complaint) =
        λ here. complaints outside vs >>= (λ later. ok (here ++ later)) in
      let (gs, mapped, h1) =
        >>=-eq-ok (as_mapping v) (λ gs. target_complaints outside gs >>= rest) h in
      let (here, ran, h2) = >>=-eq-ok (target_complaints outside gs) rest h1 in
      let (later, e, h3) = >>=-eq-ok (complaints outside vs) (λ later. ok (here ++ later)) h2 in
      let (no_here, no_later) = append-nil_parts here later (ok_inj h3) in
      first_or_later v vs j fs found mapped (ran ∙ ap ok no_here)
        (λ i. complaints-at vs i fs (e ∙ ap ok no_later))

  source_complaints-nil :
      (source text : Text) (collapse : List Text)
      → outside.read_text source ≡ some text
      → source_complaints outside source collapse ≡ ok []
      → check_source outside.is_word (split_on b'\n' text) collapse ≡ []
  unfolding source_complaints
  source_complaints-nil source text collapse r h = in_source-nil source _ (ok_inj (rw r at h))

  -- What a target without complaints satisfies.
  opted_in-nil :
      (fs : Fields) (source text key : Text) (collapse : List Text)
      → source_of (lookup "source" fs) ≡ ok source
      → outside.read_text source ≡ some text
      → has_text key collapse ≡ true
      → opted_in outside fs collapse ≡ ok []
      → (is_markdown outside.lower (destination_of outside.show (get "destination" fs)) ≡ true)
        × (check_source outside.is_word (split_on b'\n' text) collapse ≡ [])
  unfolding opted_in
  opted_in-nil fs source text key collapse from reads wants h =
      elim (Bool-cases
        (is_markdown outside.lower (destination_of outside.show (get "destination" fs)))) [
          | inl md ↦ (md, source_complaints-nil source text collapse reads (rw (from, md) at h))
          | inr other ↦ absurd (
              sorted_set-filled key collapse wants
                (not_markdown-nil source _ (sorted_set collapse) (ok_inj (rw (from, other) at h))))
        ]

  target_complaints-opted_in :
      (fs : Fields) (key : Text) (collapse : List Text)
      → is_falsy (get "delete" fs) ≡ true
      → key_texts (get "collapse_empty_substitutions" fs) ≡ ok collapse
      → has_text key collapse ≡ true
      → target_complaints outside fs ≡ ok []
      → opted_in outside fs collapse ≡ ok []
  unfolding target_complaints wanted
  target_complaints-opted_in fs key collapse kept keyed wants h =
      elim (Bool-cases (is_falsy (get "collapse_empty_substitutions" fs))) [
        | inl no_keys ↦ absurd (cc (rw (is_falsy-no_keys _ collapse no_keys keyed) at wants))
        | inr keys ↦ rw (kept, keys, keyed) at h
      ]

-- Take a manifest on which the lint's main gives exit code 0, a target of it that is no
-- deletion and whose source can be read, and a line of that source with a key that the target
-- opts in, where all keys that it opts in render empty. Then the target's destination is
-- Markdown, the sync engine's pass over the source drops the line, the lines around it are
-- blank or missing, and neither reading of its fences marks it as literal content, with the
-- front matter honoured or not.
pub linted-Site :
    (outside : Outside) (manifest fs : Fields) (targets : Items) (j i : ℕ) (rendered : Rendered)
    (source text line key : Text) (collapse : List Text)
    → main outside (obj manifest) ≡ ok 0
    → get "targets" manifest ≡ arr targets
    → get_elem? (to_list targets) j ≡ some (obj fs)
    → is_falsy (get "delete" fs) ≡ true
    → key_texts (get "collapse_empty_substitutions" fs) ≡ ok collapse
    → source_of (lookup "source" fs) ≡ ok source
    → outside.read_text source ≡ some text
    → get_elem? (split_on b'\n' text) i ≡ some line
    → has_text key collapse ≡ true
    → has_text key (line_keys line) ≡ true
    → ((k : Text) → has_text k collapse ≡ true → value_of k rendered ≡ some [])
    → (is_markdown outside.lower (destination_of outside.show (get "destination" fs)) ≡ true)
      × Site outside.is_word rendered collapse (split_on b'\n' text) i line
unfolding main as_mapping
linted-Site outside manifest fs targets j i rendered source text line key collapse ran listed at_j
      kept keyed from reads at_i wants there empty =
    let loop : List Value → Outcome Raised ℕ =
      λ vs. complaints outside vs >>= (λ found. ok (exit_code found)) in
    let (vs, taken, ran1) = >>=-eq-ok (targets_of (get "targets" manifest)) loop ran in
    let (found, looped, ran2) =
      >>=-eq-ok (complaints outside vs) (λ found. ok (exit_code found)) ran1 in
    let same = targets_of-arr targets vs (sym (ap targets_of listed) ∙ taken) in
    let clean =
      complaints-at outside vs j fs (looped ∙ ap ok (exit_code-zero found (ok_inj ran2)))
        (ap (λ us. get_elem? us j) same ∙ at_j) in
    let opted = target_complaints-opted_in outside fs key collapse kept keyed wants clean in
    let (md, checked) = opted_in-nil outside fs source text key collapse from reads wants opted in
    (
      md,
      checked-Site outside.is_word rendered (split_on b'\n' text) collapse i line key checked at_i
          wants there empty,
    )
