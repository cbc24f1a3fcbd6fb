-- ===== src/Sync/Render/Collapse/Dropped.antt =====
-- On `drop_empty_placeholder_lines` of sync-engine.py: the lines that its pass drops.
use mathlib.Core.Path.{subst}
use codex_platform.Base.{
  ℕ, zero, suc, ◌+◌, ◌≡◌, refl, ap, Bool, true, false, ◌&&◌, ◌⊎◌, inl, inr, List, [], ◌∷◌, Option,
  none, some, Text, arith, get_elem?, set, length, ltb, Bool-cases, if_ind, &&-true,
}
use codex_platform.Sync.Render.Collapse.{
  Rendered, is_trimmed_away, is_blank, previous_kept, qualifies, Pass, drop_separator, visit,
  visit_from, all_kept, pass_over,
}

set-cases :
    (xs : List Bool) (i j : ℕ) (b c : Bool)
    → get_elem? (set xs i b) j ≡ some c
    → (i ≡ j) ⊎ (get_elem? xs j ≡ some c)
set-cases [] i j b c h = inr h
set-cases (x ∷ xs) zero zero b c h = inl refl
set-cases (x ∷ xs) zero (suc j) b c h = inr h
set-cases (x ∷ xs) (suc i) zero b c h = inr h
set-cases (x ∷ xs) (suc i) (suc j) b c h = elim (set-cases xs i j b c h) [
  | inl e ↦ inl (ap suc e)
  | inr e ↦ inr e
]

all_kept-true : (ls : List Text) (j : ℕ) → get_elem? (all_kept ls) j ≡ some false → ⊥
all_kept-true [] j h = cc
all_kept-true (l ∷ ls) zero h = cc
all_kept-true (l ∷ ls) (suc j) h = all_kept-true ls j h

module _ (rendered : Rendered) (collapse lines : List Text) where
  -- An index that may be dropped.
  abbrev MayDrop : ℕ → Type 0
  MayDrop j =
      (is_blank lines (some j) ≡ true)
      ⊎ ((line : Text) × (get_elem? lines j ≡ some line)
          × (qualifies rendered collapse line ≡ true))

  abbrev Fine : List Bool → Type 0
  Fine keep = (j : ℕ) → get_elem? keep j ≡ some false → MayDrop j

  set-Fine : (keep : List Bool) (i : ℕ) → MayDrop i → Fine keep → Fine (set keep i false)
  set-Fine keep i may fine j h = elim (set-cases keep i j false false h) [
    | inl same ↦ subst MayDrop same may
    | inr before ↦ fine j before
  ]

  drop_separator-Fine : (i : ℕ) (keep : List Bool) → Fine keep → Fine (drop_separator lines i keep)
  unfolding drop_separator
  drop_separator-Fine i keep fine =
      if_ind Fine (is_blank lines previous && is_blank lines (some (suc i)))
        (λ blanks.
          let (before, after) = &&-true (is_blank lines previous) _ blanks in
          if_ind Fine (ltb (suc i) (length lines)) (λ _. set-Fine keep (suc i) (inl after) fine)
            (λ _. go previous before))
        (λ _. fine)
    where
      previous : Option ℕ
      previous = previous_kept keep i

      go :
          (o : Option ℕ)
          → is_blank lines o ≡ true
          → Fine (elim o [ none ↦ keep | some p ↦ set keep p false ])
      go none h = fine
      go (some p) h = set-Fine keep p (inl h) fine

  visit-Fine :
      (i : ℕ) (line : Text) (pass : Pass)
      → get_elem? lines i ≡ some line
      → Fine pass.keep
      → Fine (visit rendered collapse lines i line pass).keep
  unfolding visit
  visit-Fine i line pass here fine = elim (Bool-cases (qualifies rendered collapse line)) [
    | inl fits ↦ rw fits (
        drop_separator-Fine i (set pass.keep i false)
          (set-Fine pass.keep i (inr (line, here, fits)) fine))
    | inr other ↦ rw other fine
  ]

  visit_from-Fine :
      (i : ℕ) (rest : List Text) (pass : Pass)
      → ((k : ℕ) (line : Text) → get_elem? rest k ≡ some line → get_elem? lines (k + i) ≡ some line)
      → Fine pass.keep
      → Fine (visit_from rendered collapse lines i rest pass).keep
  unfolding visit_from
  visit_from-Fine i [] pass place fine = fine
  visit_from-Fine i (line ∷ rest) pass place fine =
      visit_from-Fine (suc i) rest (visit rendered collapse lines i line pass)
        (λ k l h. subst (λ n. get_elem? lines n ≡ some l) (omega arith) (place (suc k) l h))
        (visit-Fine i line pass
          (subst (λ n. get_elem? lines n ≡ some line) (omega arith) (place 0 line refl)) fine)

  -- A line that the pass over the lines does not keep is blank, or qualifies: it holds only
  -- blanks and placeholders that are opted in and render empty.
  pub dropped_lines :
      (j : ℕ) (line : Text)
      → get_elem? (pass_over rendered collapse lines).keep j ≡ some false
      → get_elem? lines j ≡ some line
      → (is_trimmed_away line ≡ true) ⊎ (qualifies rendered collapse line ≡ true)
  unfolding pass_over is_blank
  dropped_lines j line h here =
      elim (visit_from-Fine 0 lines (record { keep = all_kept lines; collapsed = [] })
        (λ k l e. subst (λ n. get_elem? lines n ≡ some l) (omega arith) e)
        (λ n e. absurd (all_kept-true lines n e)) j h) [
          | inl blank ↦ inl (ground arith)
          | inr (l, e, fits) ↦ inr (ground arith)
        ]
