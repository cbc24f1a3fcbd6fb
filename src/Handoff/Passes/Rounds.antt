-- ===== src/Handoff/Passes/Rounds.antt =====
-- On `_authorize_pass` of local-review-handoff.py: the rounds of a run whose passes were all
-- authorized before they were recorded.
use mathlib.Core.Path.{subst}
use mathlib.Core.List.{append_assoc}
use codex_platform.Base.{
  ℕ, suc, ◌≤◌, ◌≡◌, refl, ap, sym, ◌∙◌, inl, inr, Bool, true, false, ◌||◌, List, [], ◌∷◌, ◌++◌,
  Text, text_eq, text_eq→eq, text_eq_refl, arith, All, any, Bool-cases, or-false, leb, ◌==◌,
}
use codex_platform.Handoff.Comments.{Comment}
use codex_platform.Handoff.Runs.{Tier, tier_cap, Patterns}
use codex_platform.Handoff.Passes.{
  Mark, has_mark, same_mark, larger, highest_round, row_marks, marks_after,
}

abbrev pub has_round : ℕ → List Mark → Bool
has_round k ms = any (λ (m : Mark). m.1 == k) ms

abbrev pub Once : List Mark → Type 0
Once [] = Unit
Once (m ∷ ms) = (has_mark m ms ≡ false) × Once ms

-- The passes of a run with this cap: rounds from 1 to the cap, no pass twice, no round left out.
pub record Rounds (cap : ℕ) (marks : List Mark) : Type 0 where
  pub within : All (λ (m : Mark). (1 ≤ m.1) × (m.1 ≤ cap) × (m.1 ≤ 4)) marks
  pub once : Once marks
  pub gapless : (k : ℕ) → 1 ≤ k → k ≤ highest_round marks → has_round k marks ≡ true

text_eq_sym : (s t : Text) → text_eq s t ≡ false → text_eq t s ≡ false
text_eq_sym s t h = elim (Bool-cases (text_eq t s)) [
  | inl same ↦ absurd (cc (rw (text_eq→eq t s same) at h, text_eq_refl s))
  | inr differs ↦ differs
]

pub marks_after-append :
    (patterns : Patterns) (start : ℕ) (xs ys : List Comment)
    → marks_after patterns start (xs ++ ys)
      ≡ marks_after patterns start xs ++ marks_after patterns start ys
unfolding marks_after
marks_after-append patterns start [] ys = refl
marks_after-append patterns start (x ∷ xs) ys =
    ap (λ l. row_marks patterns start x.id x.body ++ l) (marks_after-append patterns start xs ys)
    ∙ sym (append_assoc (row_marks patterns start x.id x.body) _ _)

All-snoc : (P : Mark → Type 0) (ms : List Mark) (m : Mark) → All P ms → P m → All P (ms ++ m ∷ [])
All-snoc P [] m h k = (k, tt)
All-snoc P (n ∷ ns) m h k = (h.0, All-snoc P ns m h.1 k)

has_mark-snoc :
    (m n : Mark) (ms : List Mark)
    → has_mark m ms ≡ false
    → same_mark m n ≡ false
    → has_mark m (ms ++ n ∷ []) ≡ false
unfolding has_mark
has_mark-snoc m n [] h k = ground (arith, k)
has_mark-snoc m n (q ∷ ms) h k =
    let (differs, absent) = or-false (same_mark m q) (has_mark m ms) h in
    rw (differs, has_mark-snoc m n ms absent k) refl

same_mark_sym : (m n : Mark) → same_mark m n ≡ false → same_mark n m ≡ false
same_mark_sym m n h = elim (Bool-cases (text_eq m.0 n.0)) [
  | inl same ↦
      let other : (m.1 == n.1) ≡ false = ground arith in
      let other_way : (n.1 == m.1) ≡ false = ground arith in ground arith
  | inr differs ↦ let other = text_eq_sym m.0 n.0 differs in ground arith
]

Once-snoc : (ms : List Mark) (m : Mark) → Once ms → has_mark m ms ≡ false → Once (ms ++ m ∷ [])
unfolding has_mark
Once-snoc [] m h k = (refl, tt)
Once-snoc (n ∷ ns) m h k =
    let (differs, absent) = or-false (same_mark m n) (has_mark m ns) k in
    (has_mark-snoc n m ns h.0 (same_mark_sym m n differs), Once-snoc ns m h.1 absent)

highest_round-snoc :
    (ms : List Mark) (m : Mark) → highest_round (ms ++ m ∷ []) ≡ larger (highest_round ms) m.1
unfolding highest_round
highest_round-snoc [] m = ground arith
highest_round-snoc (n ∷ ns) m = rw (highest_round-snoc ns m) (ground arith)

has_round-snoc :
    (k : ℕ) (ms : List Mark) (m : Mark) → has_round k (ms ++ m ∷ []) ≡ (has_round k ms || m.1 == k)
has_round-snoc k [] m = ground arith
has_round-snoc k (n ∷ ns) m = rw (has_round-snoc k ns m) (ground arith)

-- A pass that may follow keeps the rounds in order.
pub Rounds-snoc :
    (cap : ℕ) (ms : List Mark) (m : Mark)
    → Rounds cap ms
    → (1 ≤ m.1) × (m.1 ≤ cap) × (m.1 ≤ 4)
    → has_mark m ms ≡ false
    → m.1 ≤ suc (highest_round ms)
    → Rounds cap (ms ++ m ∷ [])
Rounds-snoc cap ms m rounds fits fresh next = record {
  within = All-snoc _ ms m rounds.within fits;
  once = Once-snoc ms m rounds.once fresh;
  gapless = λ k positive low. reached k positive (subst (λ n. k ≤ n) (highest_round-snoc ms m) low);
}
  where
    reached :
        (k : ℕ) → 1 ≤ k → k ≤ larger (highest_round ms) m.1 → has_round k (ms ++ m ∷ []) ≡ true
    reached k positive low = has_round-snoc k ms m ∙ elim (Bool-cases (leb k (highest_round ms))) [
      | inl old ↦ rw (rounds.gapless k positive (ground arith)) refl
      | inr new ↦ let same : m.1 ≡ k = ground arith in ground arith
    ]

pub tier_cap-le : (t : Tier) → tier_cap t ≤ 4
tier_cap-le Tier.lean = omega arith
tier_cap-le Tier.deep = omega arith
