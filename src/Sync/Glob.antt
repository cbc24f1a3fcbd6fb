-- ===== src/Sync/Glob.antt =====
-- `glob_to_regex` and `path_matches_any` of sync-engine.py. A compiled pattern is the list of the
-- pieces that the source joins into one anchored regular expression.
pub mod Language
pub mod Documented
pub mod Dialect
use codex_platform.Base.{
  ℕ, Bool, true, false, not, ◌&&◌, ◌||◌, List, [], ◌∷◌, Text, ◌==◌, leb, if◌then◌else◌, any, ◌+◌,
}

-- `dirs` is `(?:.*/)?`, `rest` is `.*`, `run` is `[^/]*`, `one` is `[^/]`, `lit c` is `re.escape(c)`.
pub data Piece : Type 0 where
  dirs rest run one : Piece
  lit : ℕ → Piece

-- What follows a first star: a second star with or without a slash behind it, or nothing special.
unfoldable pub glob_to_regex : Text → List Piece
glob_to_regex [] = []
glob_to_regex (c ∷ []) = if c == b'*' then run ∷ [] else if c == b'?' then one ∷ [] else lit c ∷ []
glob_to_regex (c ∷ d ∷ []) = elim (c == b'*' && d == b'*') [
  | true ↦ rest ∷ []
  | false ↦ (if c == b'*' then run else if c == b'?' then one else lit c) ∷ glob_to_regex (d ∷ [])
]
glob_to_regex (c ∷ d ∷ e ∷ s) = elim (c == b'*' && d == b'*') [
  | true ↦ elim (e == b'/') [ true ↦ dirs ∷ glob_to_regex s | false ↦ rest ∷ glob_to_regex (e ∷ s) ]
  | false ↦
      (if c == b'*' then run else if c == b'?' then one else lit c) ∷ glob_to_regex (d ∷ e ∷ s)
]

-- A pattern's characters are compared as they are, or under `re.IGNORECASE`: by lower case, with the
-- four characters beyond ASCII that `re` takes for an ASCII letter.
abbrev pub lower : ℕ → ℕ
lower c =
    if leb b'A' c && leb c b'Z'
    then c + 32
    else if c == 0x212a
    then b'k'
    else if c == 0x17f
    then b's'
    else if c == 0x130 || c == 0x131
    then b'i'
    else c

abbrev pub Same : Type 0
Same = ℕ → ℕ → Bool

abbrev pub exact : Same
exact c d = c == d

abbrev pub ignore_case : Same
ignore_case c d = lower c == lower d

-- A star over the characters that pass a test, and then the rest of the pattern.
pub star : (ℕ → Bool) → (Text → Bool) → Text → Bool
star test then_match [] = then_match []
star test then_match (c ∷ s) = then_match (c ∷ s) || (test c && star test then_match s)

-- `.*/` and then the rest of the pattern.
pub through_slash : (Text → Bool) → Text → Bool
through_slash then_match [] = false
through_slash then_match (c ∷ s) =
    (c == b'/' && then_match s) || (not (c == b'\n') && through_slash then_match s)

-- One character that passes a test, and then the rest of the pattern.
single : (ℕ → Bool) → (Text → Bool) → Text → Bool
single test then_match [] = false
single test then_match (c ∷ s) = test c && then_match s

abbrev pub is_slash : ℕ → Bool
is_slash c = c == b'/'

abbrev pub is_newline : ℕ → Bool
is_newline c = c == b'\n'

abbrev at_end : Text → Bool
at_end [] = true
at_end (c ∷ s) = false

-- `re.match` of the pieces between `\A` and `\Z`; the dot takes no newline.
unfoldable pub matches : Same → List Piece → Text → Bool
unfolding star through_slash single
matches same [] s = at_end s
matches same (dirs ∷ ps) s = matches same ps s || through_slash (matches same ps) s
matches same (rest ∷ ps) s = star (λ c. not (is_newline c)) (matches same ps) s
matches same (run ∷ ps) s = star (λ c. not (is_slash c)) (matches same ps) s
matches same (one ∷ ps) s = single (λ c. not (is_slash c)) (matches same ps) s
matches same (lit c ∷ ps) s = single (same c) (matches same ps) s

abbrev pub path_matches_any : Same → Text → List (List Piece) → Bool
path_matches_any same path patterns = any (λ p. matches same p path) patterns
