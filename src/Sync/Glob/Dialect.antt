-- ===== src/Sync/Glob/Dialect.antt =====
-- On `glob_to_regex` of sync-engine.py: the dialect of its patterns, by the words of its
-- documentation and without the regular expression.
use codex_platform.Base.{ℕ, ◌≡◌, Bool, false, ◌||◌, [], ◌∷◌, ◌++◌, Text, ◌==◌}
use codex_platform.Sync.Glob.{Piece, dirs, rest, run, one, lit, Same}
use codex_platform.Sync.Glob.Language.{Word}

abbrev pub starts : ℕ → Text → Bool
starts c [] = false
starts c (d ∷ s) = d == c

-- What a pattern begins with, and what is left of it: two stars with a slash, two stars without, one
-- star, a question mark, or a character that stands for itself.
pub data Form : Text → Text → Piece → Type 0 where
  dirs_form : (p : Text) → Form (b'*' ∷ b'*' ∷ b'/' ∷ p) p dirs
  rest_form : (p : Text) → starts b'/' p ≡ false → Form (b'*' ∷ b'*' ∷ p) p rest
  run_form : (p : Text) → starts b'*' p ≡ false → Form (b'*' ∷ p) p run
  one_form : (p : Text) → Form (b'?' ∷ p) p one
  lit_form : (c : ℕ) (p : Text) → (c == b'*' || c == b'?') ≡ false → Form (c ∷ p) p (lit c)

-- A text matches a pattern if it begins with a word of what the pattern begins with, and the rest
-- of the text matches the rest of the pattern.
pub data Matched (same : Same) : Text → Text → Type 0 where
  both_end : Matched same [] []
  onward :
      {p q : Text} {piece : Piece} (s t u : Text)
      → Form p q piece
      → Word same piece s
      → Matched same q t
      → u ≡ s ++ t
      → Matched same p u

-- Every pattern that is not empty has a form.
Formed : Text → Type 0
Formed p = (q : Text) × (piece : Piece) × Form p q piece
