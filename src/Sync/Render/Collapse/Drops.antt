-- ===== src/Sync/Render/Collapse/Drops.antt =====
-- On `drop_empty_placeholder_lines` of sync-engine.py: a line that qualifies.
use mathlib.Core.Path.{subst}
use codex_platform.Base.{
  ℕ, zero, suc, ◌+◌, ◌<◌, ◌≡◌, refl, ap, ◌∙◌, Bool, true, false, ◌&&◌, List, [], ◌∷◌, Option, none,
  some, Text, arith, get_elem?, get_elem?-lt_length, get_elem?-set_self, length-set, set, length,
  ltb, if_ind, if◌then◌else◌,
}
use codex_platform.Sync.Render.Collapse.{
  Rendered, is_blank, previous_kept, qualifies, Pass, drop_separator, visit, visit_from, all_kept,
  pass_over,
}

abbrev IsDropped : ℕ → List Bool → Type 0
IsDropped j keep = get_elem? keep j ≡ some false

set-IsDropped : (xs : List Bool) (i j : ℕ) → IsDropped j xs → IsDropped j (set xs i false)
set-IsDropped [] i j h = h
set-IsDropped (x ∷ xs) zero zero h = refl
set-IsDropped (x ∷ xs) zero (suc j) h = h
set-IsDropped (x ∷ xs) (suc i) zero h = h
set-IsDropped (x ∷ xs) (suc i) (suc j) h = set-IsDropped xs i j h

some-eq : {a b : Text} → ◌≡◌ {A = Option Text} (some a) (some b) → a ≡ b
some-eq h = cc

-- What a change of the flags keeps: their number, and which are dropped.
record Keeps (old new : List Bool) : Type 0 where
  same_length : length new ≡ length old
  still : (j : ℕ) → IsDropped j old → IsDropped j new

set-Keeps : (xs : List Bool) (i : ℕ) → Keeps xs (set xs i false)
set-Keeps xs i = record { same_length = length-set xs i false; still = λ j. set-IsDropped xs i j }

Keeps-refl : (xs : List Bool) → Keeps xs xs
Keeps-refl xs = record { same_length = refl; still = λ j h. h }

Keeps-trans : (xs ys zs : List Bool) → Keeps xs ys → Keeps ys zs → Keeps xs zs
Keeps-trans xs ys zs a b = record {
  same_length = b.same_length ∙ a.same_length;
  still = λ j h. b.still j (a.still j h);
}

drop_separator-Keeps :
    (lines : List Text) (i : ℕ) (keep : List Bool) → Keeps keep (drop_separator lines i keep)
unfolding drop_separator
drop_separator-Keeps lines i keep =
    if_ind (Keeps keep) (is_blank lines (previous_kept keep i) && is_blank lines (some (suc i)))
      (λ _. one_or_other) (λ _. Keeps-refl keep)
  where
    earlier : (p : Option ℕ) → Keeps keep (elim p [ none ↦ keep | some q ↦ set keep q false ])
    earlier none = Keeps-refl keep
    earlier (some q) = set-Keeps keep q

    one_or_other : Keeps keep (
        if ltb (suc i) (length lines)
        then set keep (suc i) false
        else elim (previous_kept keep i) [ none ↦ keep | some q ↦ set keep q false ])
    one_or_other =
        if_ind (Keeps keep) (ltb (suc i) (length lines)) (λ _. set-Keeps keep (suc i))
          (λ _. earlier (previous_kept keep i))

module _ (rendered : Rendered) (collapse lines : List Text) where
  visit-Keeps :
      (i : ℕ) (line : Text) (pass : Pass)
      → Keeps pass.keep (visit rendered collapse lines i line pass).keep
  unfolding visit
  visit-Keeps i line pass =
      if_ind (λ (p : Pass). Keeps pass.keep p.keep) (qualifies rendered collapse line)
        (λ _.
          Keeps-trans pass.keep (set pass.keep i false)
            (drop_separator lines i (set pass.keep i false)) (set-Keeps pass.keep i)
            (drop_separator-Keeps lines i (set pass.keep i false)))
        (λ _. Keeps-refl pass.keep)

  visit_from-Keeps :
      (i : ℕ) (rest : List Text) (pass : Pass)
      → Keeps pass.keep (visit_from rendered collapse lines i rest pass).keep
  unfolding visit_from
  visit_from-Keeps i [] pass = Keeps-refl pass.keep
  visit_from-Keeps i (line ∷ rest) pass =
      let next = visit rendered collapse lines i line pass in
      Keeps-trans pass.keep next.keep (visit_from rendered collapse lines (suc i) rest next).keep
        (visit-Keeps i line pass) (visit_from-Keeps (suc i) rest next)

  visit-drops :
      (i : ℕ) (line : Text) (pass : Pass)
      → qualifies rendered collapse line ≡ true
      → i < length pass.keep
      → IsDropped i (visit rendered collapse lines i line pass).keep
  unfolding visit
  visit-drops i line pass h inside = rw h (
      (drop_separator-Keeps lines i (set pass.keep i false)).still i
        (get_elem?-set_self pass.keep i false inside))

  visit_from-drops :
      (i j : ℕ) (rest : List Text) (line : Text) (pass : Pass)
      → get_elem? rest j ≡ some line
      → qualifies rendered collapse line ≡ true
      → i + j < length pass.keep
      → IsDropped (i + j) (visit_from rendered collapse lines i rest pass).keep
  unfolding visit_from
  visit_from-drops i j [] line pass found h inside = cc
  visit_from-drops i zero (l ∷ rest) line pass found h inside =
      let next = visit rendered collapse lines i l pass in
      let here =
        visit-drops i l pass (ap (qualifies rendered collapse) (some-eq found) ∙ h)
          (omega (arith, inside)) in
      subst (λ n. IsDropped n (visit_from rendered collapse lines (suc i) rest next).keep)
        (omega arith) ((visit_from-Keeps (suc i) rest next).still i here)
  visit_from-drops i (suc j) (l ∷ rest) line pass found h inside =
      let next = visit rendered collapse lines i l pass in
      let same = (visit-Keeps i l pass).same_length in
      subst (λ n. IsDropped n (visit_from rendered collapse lines (suc i) rest next).keep)
        (omega arith)
        (visit_from-drops (suc i) j rest line next found h (omega (arith, inside, same)))

length-all_kept : (lines : List Text) → length (all_kept lines) ≡ length lines
length-all_kept [] = refl
length-all_kept (l ∷ lines) = ap suc (length-all_kept lines)

pub pass_over-drops :
    (rendered : Rendered) (collapse lines : List Text) (i : ℕ) (line : Text)
    → get_elem? lines i ≡ some line
    → qualifies rendered collapse line ≡ true
    → get_elem? (pass_over rendered collapse lines).keep i ≡ some false
unfolding pass_over
pass_over-drops rendered collapse lines i line found h =
    let inside : 0 + i < length (all_kept lines) =
      omega (arith, get_elem?-lt_length lines i line found, length-all_kept lines) in
    let start : Pass = record { keep = all_kept lines; collapsed = [] } in
    subst (λ n. get_elem? (visit_from rendered collapse lines 0 lines start).keep n ≡ some false)
      (omega arith) (visit_from-drops rendered collapse lines 0 i lines line start found h inside)
