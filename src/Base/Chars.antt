-- ===== src/Base/Chars.antt =====
-- Text as the list of its code points, for the code that walks characters.
use Prim.Native.Char.{code}
use Prim.Native.String.{String}
use mathlib.Core.Path.{◌≡◌, refl, ap, ap₂, sym, ◌∙◌}
use mathlib.Core.Logic.{◌≢◌}
use mathlib.Core.Bool.{Bool, true, false, ◌&&◌, ◌||◌}
use mathlib.Core.List.{List, [], ◌∷◌, ◌++◌}
use Prim.Native.Nat.{ℕ}
use native.Mathlib.Omega.{arith}
use codex_platform.Base.Tests.{leb, ◌==◌, if◌then◌else◌, if_ind}
use codex_platform.Base.Lists.{any, All}

abbrev pub Text : Type 0
Text = List ℕ

abbrev pub codes : String → Text
codes String.[] = []
codes (String.◌∷◌ c s) = code c ∷ codes s

abbrev pub text_eq : Text → Text → Bool
text_eq [] [] = true
text_eq [] (d ∷ t) = false
text_eq (c ∷ s) [] = false
text_eq (c ∷ s) (d ∷ t) = (c == d) && text_eq s t

-- `s.startswith(prefix)`, the prefix first.
abbrev pub has_prefix : Text → Text → Bool
has_prefix [] s = true
has_prefix (c ∷ p) [] = false
has_prefix (c ∷ p) (d ∷ s) = (c == d) && has_prefix p s

-- `part in s`
abbrev pub has_part : Text → Text → Bool
has_part p [] = has_prefix p []
has_part p (d ∷ s) = has_prefix p (d ∷ s) || has_part p s

abbrev pub is_digit : ℕ → Bool
is_digit c = leb b'0' c && leb c b'9'

abbrev pub elem : ℕ → Text → Bool
elem c s = any (λ d. c == d) s

pub text_eq→eq : (s t : Text) → text_eq s t ≡ true → s ≡ t
text_eq→eq [] [] h = refl
text_eq→eq [] (d ∷ t) h = cc
text_eq→eq (c ∷ s) [] h = cc
text_eq→eq (c ∷ s) (d ∷ t) h = ground (arith, text_eq→eq s t)

pub text_eq_refl : (s : Text) → text_eq s s ≡ true
text_eq_refl [] = refl
text_eq_refl (c ∷ s) = ground (arith, text_eq_refl s)

-- `text.split(c)` for one character, and `c.join(parts)`.
abbrev pub push_char : ℕ → List Text → List Text
push_char c [] = (c ∷ []) ∷ []
push_char c (s ∷ ss) = (c ∷ s) ∷ ss

unfoldable pub split_on : ℕ → Text → List Text
split_on sep [] = [] ∷ []
split_on sep (c ∷ s) = let rest = split_on sep s in if c == sep then [] ∷ rest else push_char c rest

unfoldable pub join_with : ℕ → List Text → Text
join_with sep [] = []
join_with sep (s ∷ []) = s
join_with sep (s ∷ t ∷ ss) = s ++ sep ∷ join_with sep (t ∷ ss)

-- `items[:-1]`
unfoldable pub drop_last : {A : Type 0} → List A → List A
drop_last [] = []
drop_last (s ∷ []) = []
drop_last (s ∷ t ∷ ss) = s ∷ drop_last (t ∷ ss)

-- `text.endswith(c)` for one character.
unfoldable pub ends_with : ℕ → Text → Bool
ends_with c [] = false
ends_with c (d ∷ []) = c == d
ends_with c (d ∷ e ∷ s) = ends_with c (e ∷ s)

split_on-cons : (sep : ℕ) (s : Text) → split_on sep s ≢ []
unfolding split_on
split_on-cons sep [] = λ e. cc
split_on-cons sep (c ∷ s) = λ e. go (split_on sep s) e
  where
    go : (parts : List Text) → (if c == sep then [] ∷ parts else push_char c parts) ≡ [] → ⊥
    go [] e = ground arith
    go (p ∷ ps) e = ground arith

-- Joining what was split gives the text again.
pub join_with-split_on : (sep : ℕ) (s : Text) → join_with sep (split_on sep s) ≡ s
unfolding join_with split_on
join_with-split_on sep [] = refl
join_with-split_on sep (c ∷ s) =
    go (split_on sep s) (join_with-split_on sep s) (split_on-cons sep s)
  where
    go :
        (parts : List Text)
        → join_with sep parts ≡ s
        → parts ≢ []
        → join_with sep (if c == sep then [] ∷ parts else push_char c parts) ≡ c ∷ s
    go [] e filled = absurd (filled refl)
    go (p ∷ []) e filled = ground (arith, e)
    go (p ∷ q ∷ ps) e filled = ground (arith, e)

pub split_on-part :
    (sep : ℕ) (s t : Text) → elem sep s ≡ false → split_on sep (s ++ sep ∷ t) ≡ s ∷ split_on sep t
unfolding split_on
split_on-part sep [] t h = ground arith
split_on-part sep (c ∷ s) t h = rw (split_on-part sep s t (ground arith)) (ground arith)

split_on-whole : (sep : ℕ) (s : Text) → elem sep s ≡ false → split_on sep s ≡ s ∷ []
unfolding split_on
split_on-whole sep [] h = refl
split_on-whole sep (c ∷ s) h = rw (split_on-whole sep s (ground arith)) (ground arith)

abbrev pub Lacks : ℕ → Text → Type 0
Lacks sep s = elem sep s ≡ false

pub split_on-Lacks : (sep : ℕ) (s : Text) → All (Lacks sep) (split_on sep s)
unfolding split_on
split_on-Lacks sep [] = (refl, tt)
split_on-Lacks sep (c ∷ s) = go (split_on sep s) (split_on-Lacks sep s)
  where
    go :
        (parts : List Text)
        → All (Lacks sep) parts
        → All (Lacks sep) (if c == sep then [] ∷ parts else push_char c parts)
    go parts h =
        if_ind (All (Lacks sep)) (c == sep) (λ same. (refl, h)) (λ other. pushed parts h other)
      where
        pushed :
            (parts : List Text)
            → All (Lacks sep) parts
            → (c == sep) ≡ false
            → All (Lacks sep) (push_char c parts)
        pushed [] h other = (ground arith, tt)
        pushed (p ∷ ps) h other = (ground arith, h.1)

-- Splitting what was joined gives the parts again.
pub split_on-join_with :
    (sep : ℕ) (s : Text) (ss : List Text)
    → All (Lacks sep) (s ∷ ss)
    → split_on sep (join_with sep (s ∷ ss)) ≡ s ∷ ss
unfolding join_with
split_on-join_with sep s [] h = split_on-whole sep s h.0
split_on-join_with sep s (t ∷ ss) h =
    split_on-part sep s (join_with sep (t ∷ ss)) h.0
    ∙ ap (λ l. s ∷ l) (split_on-join_with sep t ss h.1)

-- A text with a prefix is the prefix and a rest.
pub has_prefix-append : (p s : Text) → has_prefix p s ≡ true → (t : Text) × (s ≡ p ++ t)
has_prefix-append [] s h = (s, refl)
has_prefix-append (c ∷ p) [] h = cc
has_prefix-append (c ∷ p) (d ∷ s) h =
    let (t, e) = has_prefix-append p s (ground arith) in
    (t, ap₂ (λ a b. a ∷ b) (sym (ground arith)) e)
