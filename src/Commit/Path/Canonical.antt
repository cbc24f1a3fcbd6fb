-- ===== src/Commit/Path/Canonical.antt =====
-- On `_canonical_manifest_path` of create-signed-commit.py: which paths it lets through.
use mathlib.Core.Path.{subst}
use codex_platform.Base.{
  ◌≡◌, ◌≢◌, refl, ap, sym, ◌∙◌, Bool, true, false, List, [], ◌∷◌, ◌++◌, Option, none, some, Text,
  codes, text_eq, text_eq→eq, text_eq_refl, has_prefix, has_prefix-append, elem, arith, All,
  Bool-cases, inl, inr, ◌↔◌, join_with-split_on, split_on, join_with, if◌then◌else◌, Lacks,
  split_on-Lacks, split_on-join_with,
}
use codex_platform.Sync.Paths.{split_slash, join_slash}
use codex_platform.Sync.Paths.Inside.{IsEntry}
use codex_platform.Commit.Path.Settled.{starts_up, normal-All, normal-Settled, normal-entries}
use codex_platform.Commit.Path.{normal, or_dot, normpath, is_unsafe, canonical_manifest_path}

-- Printable, without a backslash, and every part between slashes names an entry.
pub record IsCanonical (is_printable : Text → Bool) (path : Text) : Type 0 where
  pub printable : is_printable path ≡ true
  pub no_backslash : elem b'\\' path ≡ false
  pub entries : All IsEntry (split_slash path)

-- What the refusals leave.
record Safe (is_printable : Text → Bool) (path normalized : Text) : Type 0 where
  filled : text_eq path [] ≡ false
  printable : is_printable path ≡ true
  no_backslash : elem b'\\' path ≡ false
  relative : has_prefix (codes "/") path ≡ false
  no_dot : text_eq normalized (codes ".") ≡ false
  no_parent : text_eq normalized (codes "..") ≡ false
  no_climb : has_prefix (codes "../") normalized ≡ false
  same : text_eq normalized path ≡ true

facts-Safe :
    (is_printable : Text → Bool) (path normalized : Text)
    → is_unsafe is_printable path normalized ≡ false
    → Safe is_printable path normalized
unfolding is_unsafe
facts-Safe is_printable path normalized h = record {
  filled = ground arith;
  printable = ground arith;
  no_backslash = ground arith;
  relative = ground arith;
  no_dot = ground arith;
  no_parent = ground arith;
  no_climb = ground arith;
  same = ground arith;
}

enough-Safe :
    (is_printable : Text → Bool) (path normalized : Text)
    → Safe is_printable path normalized
    → is_unsafe is_printable path normalized ≡ false
unfolding is_unsafe
enough-Safe is_printable path normalized h =
    rw
      (h.filled, h.printable, h.no_backslash, h.relative, h.no_dot, h.no_parent, h.no_climb, h.same)
      refl

or_dot-path :
    (joined path : Text) → or_dot joined ≡ path → text_eq path (codes ".") ≡ false → joined ≡ path
unfolding or_dot
or_dot-path [] path e h = absurd (cc (e, h, text_eq_refl (codes ".")))
or_dot-path (c ∷ s) path e h = e

normpath-relative :
    (path : Text)
    → has_prefix (codes "/") path ≡ false
    → normpath path ≡ or_dot (join_slash (normal false [] (split_slash path)))
unfolding normpath
normpath-relative path h = rw h refl

climbs :
    (s r : Text) → text_eq s (codes "..") ≡ true → has_prefix (codes "../") (s ++ b'/' ∷ r) ≡ true
climbs s r h = rw (text_eq→eq s (codes "..") h) refl

-- What joins to a path that is safe does not climb first.
level_start :
    (comps : List Text)
    → text_eq (join_slash comps) (codes "..") ≡ false
    → has_prefix (codes "../") (join_slash comps) ≡ false
    → starts_up comps ≡ false
unfolding join_with
level_start [] h k = refl
level_start (s ∷ []) h k = h
level_start (s ∷ t ∷ ss) h k = elim (Bool-cases (text_eq s (codes ".."))) [
  | inl up ↦ absurd (cc (climbs s (join_slash (t ∷ ss)) up, k))
  | inr level ↦ level
]

split-joined :
    (comps : List Text) (path : Text)
    → join_slash comps ≡ path
    → text_eq path [] ≡ false
    → All (Lacks b'/') comps
    → split_slash path ≡ comps
unfolding join_with
split-joined [] path e h lacks = absurd (cc (e, h, text_eq_refl []))
split-joined (s ∷ ss) path e h lacks = ap split_slash (sym e) ∙ split_on-join_with b'/' s ss lacks

joined_entries :
    (is_printable : Text → Bool) (path : Text)
    → Safe is_printable path path
    → normpath path ≡ path
    → All IsEntry (split_slash path)
joined_entries is_printable path safe e =
    let comps = normal false [] (split_slash path) in
    let joined =
      or_dot-path (join_slash comps) path (sym (normpath-relative path safe.relative) ∙ e)
        safe.no_dot in
    let level =
      level_start comps (ap (λ s. text_eq s (codes "..")) joined ∙ safe.no_parent)
        (ap (λ s. has_prefix (codes "../") s) joined ∙ safe.no_climb) in
    let lacks = normal-All (Lacks b'/') false [] (split_slash path) tt (split_on-Lacks b'/' path) in
    subst (All IsEntry) (sym (split-joined comps path joined safe.filled lacks))
      (normal-Settled [] (split_slash path) (λ _. tt) level)

Safe-entries :
    (is_printable : Text → Bool) (path : Text)
    → Safe is_printable path (normpath path)
    → All IsEntry (split_slash path)
Safe-entries is_printable path safe =
    let e = text_eq→eq (normpath path) path safe.same in
    joined_entries is_printable path (subst (Safe is_printable path) e safe) e

no_prefix : (p : Text) (path : Text) → ((t : Text) → path ≡ p ++ t → ⊥) → has_prefix p path ≡ false
no_prefix p path h = elim (Bool-cases (has_prefix p path)) [
  | inl starts ↦ let (t, e) = has_prefix-append p path starts in absurd (h t e)
  | inr differs ↦ differs
]

not_text : (path s : Text) → path ≢ s → text_eq path s ≡ false
not_text path s h = elim (Bool-cases (text_eq path s)) [
  | inl same ↦ absurd (h (text_eq→eq path s same))
  | inr differs ↦ differs
]

normpath-entries :
    (path : Text)
    → All IsEntry (split_slash path)
    → path ≢ []
    → has_prefix (codes "/") path ≡ false
    → normpath path ≡ path
unfolding or_dot
normpath-entries path h filled relative =
    normpath-relative path relative
    ∙ ap (λ l. or_dot (join_slash l)) (normal-entries [] (split_slash path) h)
    ∙ ap or_dot (join_with-split_on b'/' path)
    ∙ kept path filled
  where
    kept : (path : Text) → path ≢ [] → or_dot path ≡ path
    kept [] filled = absurd (filled refl)
    kept (c ∷ s) filled = refl

at_split : {path s : Text} → All IsEntry (split_slash path) → path ≡ s → All IsEntry (split_slash s)
at_split h e = subst (λ p. All IsEntry (split_slash p)) e h

nil_part : IsEntry [] → ⊥
nil_part h = cc (h.filled)

dot_part : IsEntry (codes ".") → ⊥
dot_part h = cc (h.no_dot)

parent_part : IsEntry (codes "..") → ⊥
parent_part h = cc (h.no_parent)

entries-Safe :
    (is_printable : Text → Bool) (path : Text)
    → IsCanonical is_printable path
    → Safe is_printable path (normpath path)
unfolding split_on
entries-Safe is_printable path h =
    let filled = λ (e : path ≡ []). nil_part (at_split h.entries e).0 in
    let relative = no_prefix (codes "/") path (λ t e. nil_part (at_split h.entries e).0) in
    let e = normpath-entries path h.entries filled relative in
    subst (Safe is_printable path) (sym e) (record {
      filled = not_text path [] filled;
      printable = h.printable;
      no_backslash = h.no_backslash;
      relative = relative;
      no_dot = not_text path (codes ".") (λ e. dot_part (at_split h.entries e).0);
      no_parent = not_text path (codes "..") (λ e. parent_part (at_split h.entries e).0);
      no_climb = no_prefix (codes "../") path (λ t e. parent_part (at_split h.entries e).0);
      same = text_eq_refl path;
    })

some-eq : {a b : Text} → ◌≡◌ {A = Option Text} (some a) (some b) → a ≡ b
some-eq h = cc

-- `_canonical_manifest_path` gives a path exactly if it is the argument itself and the argument
-- is printable, holds no backslash, and each part of it between slashes is not empty, `.` or
-- `..`.
pub canonical_iff :
    (is_printable : Text → Bool) (path kept : Text)
    → (canonical_manifest_path is_printable path ≡ some kept)
      ↔ ((kept ≡ path) × IsCanonical is_printable path)
unfolding canonical_manifest_path
canonical_iff is_printable path kept = (to, from)
  where
    to :
        (if is_unsafe is_printable path (normpath path) then none else some (normpath path))
          ≡ some kept
        → (kept ≡ path) × IsCanonical is_printable path
    to h = elim (Bool-cases (is_unsafe is_printable path (normpath path))) [
      | inl refused ↦ absurd (cc (rw refused at h))
      | inr passed ↦
          let safe = facts-Safe is_printable path (normpath path) passed in
          (
            sym (some-eq (rw passed at h)) ∙ text_eq→eq (normpath path) path safe.same,
            record {
              printable = safe.printable;
              no_backslash = safe.no_backslash;
              entries = Safe-entries is_printable path safe;
            },
          )
    ]

    from :
        (kept ≡ path) × IsCanonical is_printable path
        → (if is_unsafe is_printable path (normpath path) then none else some (normpath path))
          ≡ some kept
    from (e, h) =
        let safe = entries-Safe is_printable path h in
        rw (enough-Safe is_printable path (normpath path) safe)
          (ap some (text_eq→eq (normpath path) path safe.same ∙ sym e))
