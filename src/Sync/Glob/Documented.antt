-- ===== src/Sync/Glob/Documented.antt =====
-- The forms of pattern that the documentation of `glob_to_regex` names, read as sets of paths.
use mathlib.Core.Path.{subst}
use mathlib.Core.List.{append-nil}
use codex_platform.Base.{
  ℕ, ◌≡◌, refl, ap, sym, ◌∙◌, Bool, true, not, ◌&&◌, ◌⊎◌, inl, inr, ◌↔◌, List, [], ◌∷◌, ◌++◌, map,
  Text, arith, ◌==◌, all, &&-true, ==_iff,
}
use codex_platform.Sync.Glob.{
  Piece, dirs, rest, lit, exact, star, through_slash, is_newline, glob_to_regex, matches,
}
use codex_platform.Sync.Glob.Language.{through_slash_sound, through_slash_complete}

-- Text that holds no wildcard.
abbrev pub is_plain : Text → Bool
is_plain s = all (λ c. not (c == b'*') && not (c == b'?')) s

abbrev pub no_newline : Text → Bool
no_newline s = all (λ c. not (is_newline c)) s

glob-plain_cons :
    (c : ℕ) (s : Text)
    → (not (c == b'*') && not (c == b'?')) ≡ true
    → glob_to_regex (c ∷ s) ≡ lit c ∷ glob_to_regex s
unfolding glob_to_regex
glob-plain_cons c [] h = ground arith
glob-plain_cons c (d ∷ []) h = ground arith
glob-plain_cons c (d ∷ e ∷ s) h = ground arith

glob-plain :
    (p s : Text) → is_plain p ≡ true → glob_to_regex (p ++ s) ≡ map lit p ++ glob_to_regex s
glob-plain [] s h = refl
glob-plain (c ∷ p) s h =
    let (hc, hp) = &&-true (not (c == b'*') && not (c == b'?')) (is_plain p) h in
    glob-plain_cons c (p ++ s) hc ∙ ap (λ l. lit c ∷ l) (glob-plain p s hp)

lits_sound :
    (p : Text) (ps : List Piece) (s : Text)
    → matches exact (map lit p ++ ps) s ≡ true
    → (t : Text) × (s ≡ p ++ t) × (matches exact ps t ≡ true)
unfolding matches
lits_sound [] ps s h = (s, refl, h)
lits_sound (c ∷ p) ps [] h = cc
lits_sound (c ∷ p) ps (d ∷ s) h =
    let (same, m) = &&-true (c == d) (matches exact (map lit p ++ ps) s) h in
    let (t, e, k) = lits_sound p ps s m in (t, cc ((==_iff c d).0 same), k)

lits_complete :
    (p : Text) (ps : List Piece) (t : Text)
    → matches exact ps t ≡ true
    → matches exact (map lit p ++ ps) (p ++ t) ≡ true
unfolding matches
lits_complete [] ps t h = h
lits_complete (c ∷ p) ps t h = ground (arith, lits_complete p ps t h)

at_end-nil : (t : Text) → matches exact [] t ≡ true → t ≡ []
unfolding matches
at_end-nil [] h = refl
at_end-nil (c ∷ t) h = cc

at_end-of_nil : matches exact [] [] ≡ true
unfolding matches
at_end-of_nil = refl

rest_only : (t : Text) → (matches exact (rest ∷ []) t ≡ true) ↔ (no_newline t ≡ true)
unfolding matches
rest_only t = (to t, from t)
  where
    to :
        (t : Text)
        → star (λ c. not (is_newline c)) (matches exact []) t ≡ true
        → no_newline t ≡ true
    to [] h = refl
    to (c ∷ t) h = ground (arith, to t)

    from :
        (t : Text)
        → no_newline t ≡ true
        → star (λ c. not (is_newline c)) (matches exact []) t ≡ true
    from [] h = refl
    from (c ∷ t) h = ground (arith, from t)

subtree-pieces :
    (dir : Text)
    → is_plain dir ≡ true
    → glob_to_regex (dir ++ b'/' ∷ b'*' ∷ b'*' ∷ []) ≡ map lit dir ++ lit b'/' ∷ rest ∷ []
unfolding glob_to_regex
subtree-pieces dir plain = glob-plain dir (b'/' ∷ b'*' ∷ b'*' ∷ []) plain

slash_rest :
    (t : Text)
    → matches exact (lit b'/' ∷ rest ∷ []) t ≡ true
    → (u : Text) × (t ≡ b'/' ∷ u) × (no_newline u ≡ true)
slash_rest t h = let (u, e, m) = lits_sound (b'/' ∷ []) (rest ∷ []) t h in (u, e, (rest_only u).0 m)

-- For a directory without `*` and `?`, the pattern `dir/**` matches a text exactly if it is
-- `dir/` and more that holds no newline; so not `dir` itself.
pub subtree_pattern :
    (dir s : Text)
    → is_plain dir ≡ true
    → (matches exact (glob_to_regex (dir ++ b'/' ∷ b'*' ∷ b'*' ∷ [])) s ≡ true)
      ↔ ((t : Text) × (s ≡ dir ++ b'/' ∷ t) × (no_newline t ≡ true))
subtree_pattern dir s plain = rw (subtree-pieces dir plain) (
  (λ h.
      let (t, e, m) = lits_sound dir (lit b'/' ∷ rest ∷ []) s h in
      let (u, e', n) = slash_rest t m in (u, e ∙ ap (λ l. dir ++ l) e', n)),
  (λ (u, e, n). rw e (
      lits_complete dir (lit b'/' ∷ rest ∷ []) (b'/' ∷ u)
        (lits_complete (b'/' ∷ []) (rest ∷ []) u ((rest_only u).1 n)))),
)

any_depth-pieces :
    (name : Text)
    → is_plain name ≡ true
    → glob_to_regex (b'*' ∷ b'*' ∷ b'/' ∷ name) ≡ dirs ∷ map lit name
unfolding glob_to_regex
any_depth-pieces name plain =
    ap (λ l. dirs ∷ l)
      (ap glob_to_regex (sym (append-nil name))
        ∙ glob-plain name [] plain
        ∙ append-nil (map lit name))

name_only : (name s : Text) → (matches exact (map lit name) s ≡ true) ↔ (s ≡ name)
name_only name s = (to, from)
  where
    to : matches exact (map lit name) s ≡ true → s ≡ name
    to h =
        let (t, e, m) =
          lits_sound name [] s
            (subst (λ l. matches exact l s ≡ true) (sym (append-nil (map lit name))) h) in
        e ∙ ap (λ l. name ++ l) (at_end-nil t m) ∙ append-nil name

    from : s ≡ name → matches exact (map lit name) s ≡ true
    from e =
        subst (λ t. matches exact (map lit name) t ≡ true) (sym e)
          (subst (λ l. matches exact l name ≡ true) (append-nil (map lit name))
            (subst (λ t. matches exact (map lit name ++ []) t ≡ true) (append-nil name)
              (lits_complete name [] [] at_end-of_nil)))

dirs_cases :
    (ps : List Piece) (s : Text)
    → (matches exact (dirs ∷ ps) s ≡ true)
    → (matches exact ps s ≡ true) ⊎ (through_slash (matches exact ps) s ≡ true)
unfolding matches
dirs_cases ps s h = ground arith

dirs_here :
    (ps : List Piece) (s : Text) → matches exact ps s ≡ true → matches exact (dirs ∷ ps) s ≡ true
unfolding matches
dirs_here ps s h = ground arith

dirs_below :
    (ps : List Piece) (s : Text)
    → through_slash (matches exact ps) s ≡ true
    → matches exact (dirs ∷ ps) s ≡ true
unfolding matches
dirs_below ps s h = ground arith

-- For a name without `*` and `?`, the pattern `**/name` matches a text exactly if it is the
-- name itself, or the name below a directory whose text holds no newline.
pub any_depth_pattern :
    (name s : Text)
    → is_plain name ≡ true
    → (matches exact (glob_to_regex (b'*' ∷ b'*' ∷ b'/' ∷ name)) s ≡ true)
      ↔ ((s ≡ name) ⊎ ((a : Text) × (s ≡ a ++ b'/' ∷ name) × (no_newline a ≡ true)))
any_depth_pattern name s plain = rw (any_depth-pieces name plain) (
  (λ h. elim (dirs_cases (map lit name) s h) [
    | inl here ↦ inl ((name_only name s).0 here)
    | inr below ↦
        let (a, b, e, n, m) = through_slash_sound (matches exact (map lit name)) s below in
        inr (a, e ∙ ap (λ l. a ++ b'/' ∷ l) ((name_only name b).0 m), n)
  ]),
  (λ c. elim c [
    | inl e ↦ dirs_here (map lit name) s ((name_only name s).1 e)
    | inr (a, e, n) ↦ dirs_below (map lit name) s (
        rw e (
          through_slash_complete (matches exact (map lit name)) a name n
            ((name_only name name).1 refl)))
  ]),
)
