-- ===== src/Commit/Message/Once.antt =====
-- On `with_signoff` of create-signed-commit.py, applied to a message that it made.
use codex_platform.Base.{
  ◌≡◌, refl, true, [], ◌∷◌, ◌++◌, Text, codes, has_prefix, has_part, arith, Bool-cases, inl, inr,
}
use codex_platform.Commit.Message.{marker, identity, derive_signoff_trailer, with_signoff, rstrip}

has_prefix-own : (p t : Text) → has_prefix p (p ++ t) ≡ true
has_prefix-own [] t = refl
has_prefix-own (c ∷ p) t = ground (arith, has_prefix-own p t)

has_prefix-extend : (p s t : Text) → has_prefix p s ≡ true → has_prefix p (s ++ t) ≡ true
has_prefix-extend [] s t h = refl
has_prefix-extend (c ∷ p) [] t h = cc
has_prefix-extend (c ∷ p) (d ∷ s) t h = ground (arith, has_prefix-extend p s t)

has_part-prefix : (p s : Text) → has_prefix p s ≡ true → has_part p s ≡ true
has_part-prefix p [] h = h
has_part-prefix p (c ∷ s) h = rw h refl

has_part-behind : (p s t : Text) → has_part p t ≡ true → has_part p (s ++ t) ≡ true
has_part-behind p [] t h = h
has_part-behind p (c ∷ s) t h = ground (arith, has_part-behind p s t h)

trailer-marker : (slug t : Text) → has_part marker (derive_signoff_trailer slug ++ t) ≡ true
unfolding derive_signoff_trailer
trailer-marker slug t = has_part-prefix marker (derive_signoff_trailer slug ++ t) (
    has_prefix-extend marker (derive_signoff_trailer slug) t
      (has_prefix-own marker (identity slug)))

signed-marker :
    (message slug : Text)
    → has_part marker (with_signoff message (derive_signoff_trailer slug)) ≡ true
unfolding with_signoff
signed-marker message slug = elim (Bool-cases (has_part marker message)) [
  | inl there ↦ rw there there
  | inr absent ↦ rw absent (
      has_part-behind marker (rstrip message) _ (
        has_part-behind marker (codes "\n\n") (derive_signoff_trailer slug ++ codes "\n")
          (trailer-marker slug (codes "\n"))))
]

pub with_signoff_once :
    (message slug trailer : Text)
    → with_signoff (with_signoff message (derive_signoff_trailer slug)) trailer
      ≡ with_signoff message (derive_signoff_trailer slug)
unfolding with_signoff
with_signoff_once message slug trailer = rw (signed-marker message slug) refl
