-- ===== src/Sync/Render/Tokens.antt =====
-- `PLACEHOLDER_RE.finditer`, as a division of the text into characters and placeholders.
pub mod RoundTrip
use codex_platform.Base.{
  ℕ, zero, suc, ◌+◌, ◌≡◌, refl, ap, ◌∙◌, sym, Bool, true, false, ◌&&◌, ◌||◌, List, [], ◌∷◌, ◌++◌,
  Option, none, some, Text, codes, has_prefix, is_digit, ◌==◌, leb, arith, length, if◌then◌else◌,
}

pub data Token : Type 0 where
  char : ℕ → Token
  hole : Text → Token

abbrev is_upper : ℕ → Bool
is_upper c = leb b'A' c && leb c b'Z'

abbrev is_key_char : ℕ → Bool
is_key_char c = is_upper c || is_digit c || c == b'_'

-- The longest run of key characters, and what follows it.
key_run : Text → Text × Text
key_run [] = ([], [])
key_run (c ∷ s) =
    let (key, rest) = key_run s in if is_key_char c then (c ∷ key, rest) else ([], c ∷ s)

-- The key of `<<KEY>>` at the start of the text. A key holds no `>`, so the longest run is the key.
closed : Text × Text → Option Text
closed (c ∷ key, rest) = if is_upper c && has_prefix (codes ">>") rest then some (c ∷ key) else none
closed ([], rest) = none

placeholder_at : Text → Option Text
placeholder_at (c ∷ d ∷ s) = if c == b'<' && d == b'<' then closed (key_run s) else none
placeholder_at _ = none

-- The scan from left to right; the number is how many characters a match still covers.
scan : ℕ → Text → List Token
scan skip [] = []
scan (suc skip) (c ∷ s) = scan skip s
scan zero (c ∷ s) = elim (placeholder_at (c ∷ s)) [
  | none ↦ char c ∷ scan zero s
  | some key ↦ hole key ∷ scan (length key + 3) s
]

pub tokens : Text → List Token
tokens s = scan 0 s

-- A token's own text.
abbrev pub source_of : Token → Text
source_of (char c) = c ∷ []
source_of (hole key) = codes "<<" ++ key ++ codes ">>"

-- `PLACEHOLDER_RE.sub(replace, text)`, for a replacement of keys.
unfoldable pub render : (Text → Text) → List Token → Text
render replace [] = []
render replace (char c ∷ ts) = c ∷ render replace ts
render replace (hole key ∷ ts) = replace key ++ render replace ts

-- `PLACEHOLDER_RE.findall(text)`
unfoldable pub holes : List Token → List Text
holes [] = []
holes (char c ∷ ts) = holes ts
holes (hole key ∷ ts) = key ∷ holes ts

abbrev pub kept : Text → Text
kept key = source_of (hole key)

-- Names what a scan opens.
unfoldable pub tokens_run : Unit {0}
unfolding key_run closed placeholder_at scan tokens render holes
tokens_run = tt
