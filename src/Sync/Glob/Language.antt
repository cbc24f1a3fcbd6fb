-- ===== src/Sync/Glob/Language.antt =====
-- On `glob_to_regex` of sync-engine.py: the language of a compiled pattern, as a relation.
use mathlib.Core.List.{append_assoc}
use codex_platform.Base.{
  ℕ, ◌≡◌, refl, ap, sym, ◌∙◌, Bool, true, false, not, ◌&&◌, ◌↔◌, List, [], ◌∷◌, ◌++◌, Text, arith,
  ◌==◌, all, Bool-cases, &&-true, inl, inr, ==_iff,
}
use codex_platform.Sync.Glob.{
  Piece, dirs, rest, run, one, lit, Same, star, through_slash, single, is_slash, is_newline,
  matches,
}

-- The text that a piece stands for, by the words of `glob_to_regex`'s documentation.
pub data Word (same : Same) : Piece → Text → Type 0 where
  no_dirs : Word same dirs []
  some_dirs : (s : Text) → all (λ c. not (is_newline c)) s ≡ true → Word same dirs (s ++ b'/' ∷ [])
  rest_word : (s : Text) → all (λ c. not (is_newline c)) s ≡ true → Word same rest s
  run_word : (s : Text) → all (λ c. not (is_slash c)) s ≡ true → Word same run s
  one_word : (c : ℕ) → is_slash c ≡ false → Word same one (c ∷ [])
  lit_word : (c d : ℕ) → same c d ≡ true → Word same (lit c) (d ∷ [])

-- A text is in the language of a pattern if it is the pieces' words, one after the other.
pub data Words (same : Same) : List Piece → Text → Type 0 where
  none_left : Words same [] []
  next :
      {p : Piece} {ps : List Piece} (s t u : Text)
      → Word same p s
      → Words same ps t
      → u ≡ s ++ t
      → Words same (p ∷ ps) u

-- A star matches exactly when some prefix passes the test and the rest matches.
pub star_sound :
    (test : ℕ → Bool) (k : Text → Bool) (s : Text)
    → star test k s ≡ true
    → (a : Text) × (b : Text) × (s ≡ a ++ b) × (all test a ≡ true) × (k b ≡ true)
unfolding star
star_sound test k [] h = ([], [], refl, refl, h)
star_sound test k (c ∷ s) h = elim (Bool-cases (k (c ∷ s))) [
  | inl now ↦ ([], c ∷ s, refl, refl, now)
  | inr later ↦
      let (a, b, e, t, m) = star_sound test k s (ground arith) in
      (c ∷ a, b, ap (λ l. c ∷ l) e, ground arith, m)
]

pub star_complete :
    (test : ℕ → Bool) (k : Text → Bool) (a b : Text)
    → all test a ≡ true
    → k b ≡ true
    → star test k (a ++ b) ≡ true
unfolding star
star_complete test k [] [] h m = m
star_complete test k [] (c ∷ b) h m = ground arith
star_complete test k (c ∷ a) b h m = ground (arith, star_complete test k a b)

pub through_slash_sound :
    (k : Text → Bool) (s : Text)
    → through_slash k s ≡ true
    → (a : Text) × (b : Text) × (s ≡ a ++ b'/' ∷ b)
      × (all (λ c. not (is_newline c)) a ≡ true)
      × (k b ≡ true)
unfolding through_slash
through_slash_sound k [] h = cc
through_slash_sound k (c ∷ s) h = elim (Bool-cases (c == b'/' && k s)) [
  | inl now ↦ (
    [],
    s,
    ap (λ d. d ∷ s) ((==_iff c b'/').0 (&&-true (c == b'/') (k s) now).0),
    refl,
    (&&-true (c == b'/') (k s) now).1,
  )
  | inr later ↦
      let (a, b, e, t, m) = through_slash_sound k s (ground arith) in
      (c ∷ a, b, ap (λ l. c ∷ l) e, ground arith, m)
]

pub through_slash_complete :
    (k : Text → Bool) (a b : Text)
    → all (λ c. not (is_newline c)) a ≡ true
    → k b ≡ true
    → through_slash k (a ++ b'/' ∷ b) ≡ true
unfolding through_slash
through_slash_complete k [] b h m = ground arith
through_slash_complete k (c ∷ a) b h m = ground (arith, through_slash_complete k a b)

single_sound :
    (test : ℕ → Bool) (k : Text → Bool) (s : Text)
    → single test k s ≡ true
    → (c : ℕ) × (b : Text) × (s ≡ c ∷ b) × (test c ≡ true) × (k b ≡ true)
unfolding single
single_sound test k [] h = cc
single_sound test k (c ∷ s) h =
    (c, s, refl, (&&-true (test c) (k s) h).0, (&&-true (test c) (k s) h).1)

-- What the matcher accepts is in the language.
matches_sound :
    (same : Same) (ps : List Piece) (s : Text) → matches same ps s ≡ true → Words same ps s
unfolding matches
matches_sound same [] [] h = none_left
matches_sound same [] (c ∷ s) h = cc
matches_sound same (dirs ∷ ps) s h = elim (Bool-cases (matches same ps s)) [
  | inl now ↦ next [] s s no_dirs (matches_sound same ps s now) refl
  | inr later ↦
      let (a, b, e, t, m) = through_slash_sound (matches same ps) s (ground arith) in
      next (a ++ b'/' ∷ []) b s (some_dirs a t) (matches_sound same ps b m)
        (e ∙ sym (append_assoc a (b'/' ∷ []) b))
]
matches_sound same (rest ∷ ps) s h =
    let (a, b, e, t, m) = star_sound _ (matches same ps) s h in
    next a b s (rest_word a t) (matches_sound same ps b m) e
matches_sound same (run ∷ ps) s h =
    let (a, b, e, t, m) = star_sound _ (matches same ps) s h in
    next a b s (run_word a t) (matches_sound same ps b m) e
matches_sound same (one ∷ ps) s h =
    let (c, b, e, t, m) = single_sound _ (matches same ps) s h in
    next (c ∷ []) b s (one_word c (ground arith)) (matches_sound same ps b m) e
matches_sound same (lit x ∷ ps) s h =
    let (c, b, e, t, m) = single_sound (same x) (matches same ps) s h in
    next (c ∷ []) b s (lit_word x c t) (matches_sound same ps b m) e

Word-matches :
    (same : Same) {p : Piece} {s : Text} (ps : List Piece) (t : Text)
    → Word same p s
    → matches same ps t ≡ true
    → matches same (p ∷ ps) (s ++ t) ≡ true
unfolding matches
Word-matches same ps t no_dirs m = ground arith
Word-matches same ps t (some_dirs s h) m =
    rw append_assoc (ground (arith, through_slash_complete (matches same ps) s t))
Word-matches same ps t (rest_word s h) m = star_complete _ (matches same ps) s t h m
Word-matches same ps t (run_word s h) m = star_complete _ (matches same ps) s t h m
Word-matches same ps t (one_word c h) m = ground arith
Word-matches same ps t (lit_word c d h) m = ground arith

matches_complete :
    (same : Same) {ps : List Piece} {s : Text} → Words same ps s → matches same ps s ≡ true
unfolding matches
matches_complete same none_left = refl
matches_complete same (next {ps = ps} s t u w ws e) =
    rw e (Word-matches same ps t w (matches_complete same ws))

-- The match of a compiled pattern decides its documented language, under either comparison of
-- characters: a text matches exactly if it is divided into words of the pieces, in their order.
pub matches-iff-Words :
    (same : Same) (ps : List Piece) (s : Text) → (matches same ps s ≡ true) ↔ Words same ps s
matches-iff-Words same ps s = (matches_sound same ps s, λ w. matches_complete same w)
