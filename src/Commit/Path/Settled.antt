-- ===== src/Commit/Path/Settled.antt =====
-- On `posixpath.normpath` of a relative path, part by part, as create-signed-commit.py uses it.
use mathlib.Core.List.{append-nil, append_assoc}
use codex_platform.Base.{
  ◌≡◌, refl, ap, sym, ◌∙◌, Bool, true, false, not, ◌&&◌, ◌||◌, List, [], ◌∷◌, ◌++◌, Text, codes,
  text_eq, arith, All, drop_last, if_ind,
}
use codex_platform.Sync.Paths.Inside.{IsEntry}
use codex_platform.Commit.Path.{normal_step, normal, is_nil, ends_with_parent}

-- The first part that is kept climbs.
abbrev pub starts_up : List Text → Bool
starts_up [] = false
starts_up (s ∷ ss) = text_eq s (codes "..")

module _ (P : Text → Type 0) where
  All-snoc : (xs : List Text) (s : Text) → All P xs → P s → All P (xs ++ s ∷ [])
  All-snoc [] s h hs = (hs, tt)
  All-snoc (x ∷ xs) s h hs = (h.0, All-snoc xs s h.1 hs)

  All-drop_last : (xs : List Text) → All P xs → All P (drop_last xs)
  unfolding drop_last
  All-drop_last [] h = h
  All-drop_last (s ∷ []) h = tt
  All-drop_last (s ∷ t ∷ ss) h = (h.0, All-drop_last (t ∷ ss) h.1)

  normal_step-All :
      (rooted : Bool) (kept : List Text) (s : Text)
      → All P kept
      → P s
      → All P (normal_step rooted kept s)
  unfolding normal_step
  normal_step-All rooted kept s h hs =
      if_ind (All P) (text_eq s [] || text_eq s (codes ".")) (λ _. h)
        (λ _. if_ind (All P) _ (λ _. All-snoc kept s h hs) (λ _. All-drop_last kept h))

  pub normal-All :
      (rooted : Bool) (kept ss : List Text) → All P kept → All P ss → All P (normal rooted kept ss)
  unfolding normal
  normal-All rooted kept [] h hs = h
  normal-All rooted kept (s ∷ ss) h hs =
      normal-All rooted (normal_step rooted kept s) ss (normal_step-All rooted kept s h hs.0) hs.1

-- Parts that do not climb first do not climb at all.
abbrev pub Settled : List Text → Type 0
Settled kept = starts_up kept ≡ false → All IsEntry kept

starts_up-snoc :
    (kept : List Text) (s : Text) → starts_up (kept ++ s ∷ []) ≡ false → starts_up kept ≡ false
starts_up-snoc [] s h = refl
starts_up-snoc (x ∷ xs) s h = h

Settled-drop_last : (kept : List Text) → Settled kept → Settled (drop_last kept)
unfolding drop_last
Settled-drop_last [] h = h
Settled-drop_last (s ∷ []) h = λ _. tt
Settled-drop_last (s ∷ t ∷ ss) h = λ e. All-drop_last IsEntry (s ∷ t ∷ ss) (h e)

ends_with_parent-entries : (kept : List Text) → All IsEntry kept → ends_with_parent kept ≡ false
ends_with_parent-entries [] h = refl
ends_with_parent-entries (s ∷ []) h = h.0.no_parent
ends_with_parent-entries (s ∷ t ∷ ss) h = ends_with_parent-entries (t ∷ ss) h.1

-- A part that is kept, where it is no entry, climbs from the start or from behind one that does.
kept-Settled :
    (kept : List Text) (s : Text)
    → Settled kept
    → (text_eq s [] || text_eq s (codes ".")) ≡ false
    → (not (text_eq s (codes "..")) || (not false && is_nil kept) || ends_with_parent kept) ≡ true
    → Settled (kept ++ s ∷ [])
kept-Settled [] s settled h k =
    λ e. (record { filled = ground arith; no_dot = ground arith; no_parent = e }, tt)
kept-Settled (x ∷ xs) s settled h k = λ e.
    let entries = settled e in
    let level = ends_with_parent-entries (x ∷ xs) entries in
    All-snoc IsEntry (x ∷ xs) s entries
      (record { filled = ground arith; no_dot = ground arith; no_parent = ground arith })

normal_step-Settled :
    (kept : List Text) (s : Text) → Settled kept → Settled (normal_step false kept s)
unfolding normal_step
normal_step-Settled kept s h =
    if_ind Settled (text_eq s [] || text_eq s (codes ".")) (λ _. h)
      (λ other.
        if_ind Settled _ (λ stays. kept-Settled kept s h other stays)
          (λ _. Settled-drop_last kept h))

pub normal-Settled : (kept ss : List Text) → Settled kept → Settled (normal false kept ss)
unfolding normal
normal-Settled kept [] h = h
normal-Settled kept (s ∷ ss) h =
    normal-Settled (normal_step false kept s) ss (normal_step-Settled kept s h)

normal_step-entry :
    (kept : List Text) (s : Text) → IsEntry s → normal_step false kept s ≡ kept ++ s ∷ []
unfolding normal_step
normal_step-entry kept s h = rw (h.filled, h.no_dot, h.no_parent) refl

pub normal-entries : (kept ss : List Text) → All IsEntry ss → normal false kept ss ≡ kept ++ ss
unfolding normal
normal-entries kept [] h = sym (append-nil kept)
normal-entries kept (s ∷ ss) h =
    ap (λ l. normal false l ss) (normal_step-entry kept s h.0)
    ∙ normal-entries (kept ++ s ∷ []) ss h.1
    ∙ append_assoc kept (s ∷ []) ss
