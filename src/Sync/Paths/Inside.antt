-- ===== src/Sync/Paths/Inside.antt =====
-- On `resolve_under` of sync-engine.py: the segments of its result.
use mathlib.Core.Path.{ap₂, subst}
use codex_platform.Base.{
  ◌≡◌, refl, ap, ◌∙◌, false, ◌||◌, List, [], ◌∷◌, ◌++◌, Option, none, some, Text, codes, text_eq,
  All, arith, Bool-cases, inl, inr, has_prefix, drop_last, ◌≢◌, text_eq→eq,
}
use codex_platform.Sync.Paths.{
  Segments, normal_step, normal, candidate, relative_to, proper, resolve_under, split_slash,
  is_foreign,
}

-- A segment that names an entry of its directory.
pub record IsEntry (s : Text) : Type 0 where
  pub filled : text_eq s [] ≡ false
  pub no_dot : text_eq s (codes ".") ≡ false
  pub no_parent : text_eq s (codes "..") ≡ false

some-eq : {a b : Segments} → ◌≡◌ {A = Option Segments} (some a) (some b) → a ≡ b
some-eq h = cc

All-append : (xs ys : List Text) → All IsEntry xs → All IsEntry ys → All IsEntry (xs ++ ys)
All-append [] ys hx hy = hy
All-append (x ∷ xs) ys hx hy = (hx.0, All-append xs ys hx.1 hy)

drop_last-entries : (path : Segments) → All IsEntry path → All IsEntry (drop_last path)
unfolding drop_last
drop_last-entries [] h = h
drop_last-entries (s ∷ []) h = tt
drop_last-entries (s ∷ t ∷ ss) h = (h.0, drop_last-entries (t ∷ ss) h.1)

normal_step-entries :
    (path : Segments) (s : Text) → All IsEntry path → All IsEntry (normal_step path s)
unfolding normal_step
normal_step-entries path s h = elim (Bool-cases (text_eq s [] || text_eq s (codes "."))) [
  | inl skipped ↦ rw skipped h
  | inr other ↦ elim (Bool-cases (text_eq s (codes ".."))) [
    | inl up ↦ rw (other, up) (drop_last-entries path h)
    | inr down ↦
        rw (other, down)
          (All-append path (s ∷ []) h
            (record { filled = ground arith; no_dot = ground arith; no_parent = down }, tt))
  ]
]

normal-entries :
    (path : Segments) (ss : List Text) → All IsEntry path → All IsEntry (normal path ss)
unfolding normal
normal-entries path [] h = h
normal-entries path (s ∷ ss) h =
    normal-entries (normal_step path s) ss (normal_step-entries path s h)

relative_to-split :
    (path parent rel : Segments) → relative_to path parent ≡ some rel → path ≡ parent ++ rel
unfolding relative_to
relative_to-split path [] rel h = cc
relative_to-split [] (p ∷ ps) rel h = cc
relative_to-split (s ∷ ss) (p ∷ ps) rel h = elim (Bool-cases (text_eq s p)) [
  | inl same ↦ ap₂ (λ a b. a ∷ b) (text_eq→eq s p same) (relative_to-split ss ps rel (rw same at h))
  | inr differ ↦ absurd (ground arith)
]

All-tail : (xs ys : List Text) → All IsEntry (xs ++ ys) → All IsEntry ys
All-tail [] ys h = h
All-tail (x ∷ xs) ys h = All-tail xs ys h.1

proper-inv :
    (o : Option Segments) (rel : Segments) → proper o ≡ some rel → (o ≡ some rel) × (rel ≢ [])
unfolding proper
proper-inv (some (s ∷ ss)) rel h = (h, ground arith)
proper-inv (some []) rel h = cc
proper-inv none rel h = cc

candidate-entries :
    (parent : Segments) (child : Text) (path : Segments)
    → All IsEntry parent
    → candidate parent child ≡ some path
    → All IsEntry path
unfolding candidate
candidate-entries parent child path clean h = elim (Bool-cases (is_foreign child)) [
  | inl foreign ↦ absurd (ground arith)
  | inr local ↦ elim (Bool-cases (has_prefix (codes "/") child)) [
    | inl absolute ↦
        subst (All IsEntry) (some-eq (rw (local, absolute) at h))
          (normal-entries [] (split_slash child) tt)
    | inr relative ↦
        subst (All IsEntry) (some-eq (rw (local, relative) at h))
          (normal-entries parent (split_slash child) clean)
  ]
]

found_under : Segments → Option Segments → Option Segments
found_under parent c = elim c [ none ↦ none | some path ↦ proper (relative_to path parent) ]

found_under-inv :
    (parent : Segments) (c : Option Segments) (rel : Segments)
    → found_under parent c ≡ some rel
    → (path : Segments) × (c ≡ some path) × (path ≡ parent ++ rel) × (rel ≢ [])
unfolding found_under
found_under-inv parent none rel h = cc
found_under-inv parent (some path) rel h =
    let (e, filled) = proper-inv (relative_to path parent) rel h in
    (path, refl, relative_to-split path parent rel e, filled)

-- For a parent whose segments are not empty, `.` or `..`, a result of `resolve_under` is not
-- empty and has no such segment either, whatever the child's text is, and the parent followed
-- by the result is the normalised path.
pub resolve_under-IsInside :
    (parent : Segments) (child : Text) (rel : Segments)
    → All IsEntry parent
    → resolve_under parent child ≡ some rel
    → (rel ≢ []) × All IsEntry rel × (candidate parent child ≡ some (parent ++ rel))
unfolding resolve_under found_under
resolve_under-IsInside parent child rel clean h =
    let (path, e, split, filled) = found_under-inv parent (candidate parent child) rel h in
    (
      filled,
      All-tail parent rel (subst (All IsEntry) split (candidate-entries parent child path clean e)),
      e ∙ ap some split,
    )
