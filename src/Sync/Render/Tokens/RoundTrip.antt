-- ===== src/Sync/Render/Tokens/RoundTrip.antt =====
-- On the scan for PLACEHOLDER_RE of sync-engine.py: the tokens put together again.
use mathlib.Core.Path.{ap₂}
use mathlib.Core.List.{append_assoc, tail}
use codex_platform.Base.{
  ℕ, zero, suc, ◌+◌, ◌≡◌, refl, ap, ◌∙◌, sym, Bool, true, false, ◌&&◌, ◌||◌, leb, all, All, List,
  [], ◌∷◌, ◌++◌, none, some, Text, codes, has_prefix, ◌==◌, arith, length, length-append, drop,
  Option-cases, inl, inr, &&-true, ==_iff, Bool-cases,
}
use codex_platform.Sync.Render.Tokens.{
  Token, char, hole, is_key_char, key_run, closed, placeholder_at, scan, tokens, source_of, render,
  kept, is_upper,
}

key_run-append : (s : Text) → (key_run s).0 ++ (key_run s).1 ≡ s
unfolding key_run
key_run-append [] = refl
key_run-append (c ∷ s) = ground (arith, key_run-append s)

has_prefix-split : (p s : Text) → has_prefix p s ≡ true → (t : Text) × (s ≡ p ++ t)
has_prefix-split [] s h = (s, refl)
has_prefix-split (c ∷ p) [] h = cc
has_prefix-split (c ∷ p) (d ∷ s) h =
    let (same, rest) = &&-true (c == d) (has_prefix p s) h in
    let (t, e) = has_prefix-split p s rest in (t, cc ((==_iff c d).0 same))

closed-inv :
    (key rest found : Text)
    → closed (key, rest) ≡ some found
    → (found ≡ key) × ((t : Text) × (rest ≡ codes ">>" ++ t))
unfolding closed
closed-inv [] rest found h = cc
closed-inv (c ∷ key) rest found h = elim (Bool-cases (is_upper c && has_prefix (codes ">>") rest)) [
  | inl fits ↦ (ground arith, has_prefix-split (codes ">>") rest (&&-true (is_upper c) _ fits).1)
  | inr other ↦ absurd (ground arith)
]

placeholder_at-inv :
    (s key : Text)
    → placeholder_at s ≡ some key
    → (t : Text) × (s ≡ (codes "<<" ++ key ++ codes ">>") ++ t)
unfolding placeholder_at
placeholder_at-inv [] key h = cc
placeholder_at-inv (c ∷ []) key h = cc
placeholder_at-inv (c ∷ d ∷ s) key h = elim (Bool-cases (c == b'<' && d == b'<')) [
  | inl opened ↦
      let (hc, hd) = &&-true (c == b'<') (d == b'<') opened in
      let (ek, (t, et)) = closed-inv (key_run s).0 (key_run s).1 key (rw opened at h) in
      (
        t,
        ap₂ (λ (x y : ℕ). x ∷ y ∷ s) ((==_iff c b'<').0 hc) ((==_iff d b'<').0 hd)
            ∙ ap (λ (l : Text). codes "<<" ++ l)
                (sym (key_run-append s)
                  ∙ ap₂ (λ (l m : Text). l ++ m) (sym ek) et
                  ∙ sym (append_assoc key (codes ">>") t)),
      )
  | inr other ↦ absurd (ground arith)
]

drop-append : (a t : Text) → drop (length a) (a ++ t) ≡ t
drop-append [] t = refl
drop-append (c ∷ a) t = drop-append a t

drop-hole :
    (c : ℕ) (s key t : Text)
    → c ∷ s ≡ (codes "<<" ++ key ++ codes ">>") ++ t
    → drop (length key + 3) s ≡ t
drop-hole c s key t e =
    let a : Text = b'<' ∷ (key ++ codes ">>") in
    let tail_e : s ≡ a ++ t = ap tail e in
    let size : length key + 3 ≡ length a = omega (arith, length-append key (codes ">>")) in
    ap₂ drop size tail_e ∙ drop-append a t

render-scan : (skip : ℕ) (s : Text) → render kept (scan skip s) ≡ drop skip s
unfolding render scan
render-scan zero [] = refl
render-scan (suc skip) [] = refl
render-scan (suc skip) (c ∷ s) = render-scan skip s
render-scan zero (c ∷ s) = elim (Option-cases (placeholder_at (c ∷ s))) [
  | inl plain ↦ rw (plain, render) (ap (λ l. c ∷ l) (render-scan zero s))
  | inr (key, found) ↦
      let (t, e) = placeholder_at-inv (c ∷ s) key found in
      rw (found, render)
        (ap (λ l. source_of (hole key) ++ l)
            (render-scan (length key + 3) s ∙ drop-hole c s key t e)
          ∙ sym e)
]

-- If every placeholder of a text is replaced by itself, the text comes back as it was.
pub render-tokens : (s : Text) → render kept (tokens s) ≡ s
unfolding tokens
render-tokens s = render-scan 0 s

-- A key as the documentation of the placeholders has it: an upper-case letter, then upper-case
-- letters, digits and underscores.
abbrev pub in_key : ℕ → Bool
in_key c = (leb 65 c && leb c 90) || (leb 48 c && leb c 57) || c == 95

abbrev pub is_key : Text → Bool
is_key [] = false
is_key (c ∷ s) = (leb 65 c && leb c 90) && all in_key s

-- Placeholders with such keys, and between them text without a `<`.
abbrev pub IsPlain : Token → Type 0
IsPlain (char c) = (c == b'<') ≡ false
IsPlain (hole key) = is_key key ≡ true

in_key-is_key_char : (c : ℕ) → in_key c ≡ true → is_key_char c ≡ true
in_key-is_key_char c h = ground arith

key_run-closed :
    (key t : Text) → all in_key key ≡ true → key_run (key ++ b'>' ∷ t) ≡ (key, b'>' ∷ t)
unfolding key_run
key_run-closed [] t h = refl
key_run-closed (c ∷ key) t h =
    let (here, later) = &&-true (in_key c) (all in_key key) h in
    rw (key_run-closed key t later, in_key-is_key_char c here) refl

placeholder_at-hole :
    (key t : Text)
    → is_key key ≡ true
    → placeholder_at (b'<' ∷ b'<' ∷ (key ++ b'>' ∷ b'>' ∷ t)) ≡ some key
unfolding placeholder_at closed
placeholder_at-hole [] t h = cc
placeholder_at-hole (c ∷ key) t h =
    let (first, later) = &&-true (leb 65 c && leb c 90) (all in_key key) h in
    let whole : all in_key (c ∷ key) ≡ true = ground arith in
    rw (key_run-closed (c ∷ key) (b'>' ∷ t) whole, first) refl

scan-drop : (skip : ℕ) (s : Text) → scan skip s ≡ scan 0 (drop skip s)
unfolding scan
scan-drop zero s = refl
scan-drop (suc skip) [] = refl
scan-drop (suc skip) (c ∷ s) = scan-drop skip s

scan-none : (c : ℕ) (s : Text) → placeholder_at (c ∷ s) ≡ none → scan 0 (c ∷ s) ≡ char c ∷ scan 0 s
unfolding scan
scan-none c s h = rw (h, scan) refl

scan-some :
    (c : ℕ) (s key : Text)
    → placeholder_at (c ∷ s) ≡ some key
    → scan 0 (c ∷ s) ≡ hole key ∷ scan (length key + 3) s
unfolding scan
scan-some c s key h = rw (h, scan) refl

no_placeholder : (c : ℕ) (s : Text) → (c == b'<') ≡ false → placeholder_at (c ∷ s) ≡ none
unfolding placeholder_at
no_placeholder c [] h = refl
no_placeholder c (d ∷ s) h = rw (h, placeholder_at) refl

scan-hole :
    (key t : Text)
    → is_key key ≡ true
    → scan 0 (b'<' ∷ b'<' ∷ (key ++ b'>' ∷ b'>' ∷ t)) ≡ hole key ∷ scan 0 t
scan-hole key t h =
    let rest : Text = b'<' ∷ (key ++ b'>' ∷ b'>' ∷ t) in
    scan-some b'<' rest key (placeholder_at-hole key t h)
    ∙ ap (λ l. hole key ∷ l)
        (scan-drop (length key + 3) rest
          ∙ ap (scan 0) (
              drop-hole b'<' rest key t
                (ap (λ l. b'<' ∷ b'<' ∷ l) (sym (append_assoc key (codes ">>") t)))))

-- For placeholders whose keys are an upper-case letter and then upper-case letters, digits and
-- underscores, with text without a `<` between them, the scan of the text that they make up
-- finds these placeholders and this text again.
pub tokens-render : (ts : List Token) → All IsPlain ts → tokens (render kept ts) ≡ ts
unfolding tokens render scan
tokens-render [] h = refl
tokens-render (char c ∷ ts) h =
    scan-none c _ (no_placeholder c _ h.0) ∙ ap (λ l. char c ∷ l) (tokens-render ts h.1)
tokens-render (hole key ∷ ts) h =
    ap (λ l. scan 0 (b'<' ∷ b'<' ∷ l)) (append_assoc key (codes ">>") (render kept ts))
    ∙ scan-hole key (render kept ts) h.0
    ∙ ap (λ l. hole key ∷ l) (tokens-render ts h.1)
