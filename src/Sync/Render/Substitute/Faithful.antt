-- ===== src/Sync/Render/Substitute/Faithful.antt =====
-- On `substitute` of sync-engine.py: the text that it leaves alone, and its exit.
use codex_platform.Base.{
  String, ◌≡◌, refl, ap, ◌∙◌, List, [], ◌∷◌, ◌++◌, Option, none, some, Text, All, arith, ◌⊎◌, ◌↔◌,
  inl, inr,
}
use mathlib.Core.Path.{ap₂}
use codex_platform.Base.Outcome.{Outcome, ok, err, ◌>>=◌, err_inj}
use codex_platform.Base.Value.{Value, Fields, lookup}
use codex_platform.Sync.Render.Tokens.{Token, char, hole, tokens, render, holes, kept}
use codex_platform.Sync.Render.Tokens.RoundTrip.{render-tokens}
use codex_platform.Sync.Render.Collapse.{Rendered, value_of, drop_empty_placeholder_lines}
use codex_platform.Sync.Render.Substitute.{
  ShowOther, add_key, rendered_values, replacement, substitute,
}

render-cong :
    (f g : Text → Text) (ts : List Token)
    → All (λ key. f key ≡ g key) (holes ts)
    → render f ts ≡ render g ts
unfolding render holes
render-cong f g [] h = refl
render-cong f g (char c ∷ ts) h = ap (λ l. c ∷ l) (render-cong f g ts h)
render-cong f g (hole key ∷ ts) h = ap₂ (λ a b. a ++ b) h.0 (render-cong f g ts h.1)

-- No key of the list has a rendered value.
abbrev pub Undeclared : Rendered → List Text → Type 0
Undeclared rendered keys = All (λ key. value_of key rendered ≡ none) keys

replacement-kept :
    (rendered : Rendered) (keys : List Text)
    → Undeclared rendered keys
    → All (λ key. replacement rendered key ≡ kept key) keys
unfolding replacement
replacement-kept rendered [] h = tt
replacement-kept rendered (key ∷ keys) h =
    (rw (h.0, replacement), replacement-kept rendered keys h.1)

-- Without opted-in keys, a source none of whose placeholders is a declared key is copied
-- character for character, if the declared keys are all in the config.
pub substitute_verbatim :
    (show : ShowOther) (text : Text) (values : Fields) (target_keys : List String)
    (rendered : Rendered)
    → rendered_values show values target_keys ≡ ok rendered
    → Undeclared rendered (holes (tokens text))
    → substitute show text values target_keys [] ≡ ok text
unfolding substitute drop_empty_placeholder_lines
substitute_verbatim show text values target_keys rendered h none_declared = rw h (
    ap ok (
      render-cong (replacement rendered) kept (tokens text)
        (replacement-kept rendered (holes (tokens text)) none_declared)
      ∙ render-tokens text))

-- A declared key that the config does not have.
pub data Missing (values : Fields) : List String → Type 0 where
  at_head :
      {key : String} {keys : List String} → lookup key values ≡ none → Missing values (key ∷ keys)
  later : {key : String} {keys : List String} → Missing values keys → Missing values (key ∷ keys)

bind-err :
    {A : Type 0} (m : Outcome (List String) A) (f : A → Text) (found : List String)
    → (m >>= λ a. ok (f a)) ≡ err found
    → m ≡ err found
bind-err (ok a) f found h = absurd (ground (arith, h))
bind-err (err e) f found h = ap err (err_inj h)

add_key-err :
    (show : ShowOther) (key : String) (o : Option Value) (missing : List String)
    → (found : List String) × (add_key show key o (err missing) ≡ err found)
unfolding add_key
add_key-err show key none missing = (key ∷ missing, refl)
add_key-err show key (some v) missing = (missing, refl)

add_key-none :
    (show : ShowOther) (key : String) (rest : Outcome (List String) Rendered)
    → (found : List String) × (add_key show key none rest ≡ err found)
unfolding add_key
add_key-none show key (ok vs) = (key ∷ [], refl)
add_key-none show key (err missing) = (key ∷ missing, refl)

Missing→err :
    (show : ShowOther) (values : Fields) (keys : List String)
    → Missing values keys
    → (found : List String) × (rendered_values show values keys ≡ err found)
unfolding rendered_values
Missing→err show values [] m = elim m [ ]
Missing→err show values (key ∷ keys) (at_head h) =
    let (found, e) = add_key-none show key (rendered_values show values keys) in (found, rw h e)
Missing→err show values (key ∷ keys) (later m) =
    let (missing, e) = Missing→err show values keys m in
    let (found, e') = add_key-err show key (lookup key values) missing in
    (found, ap (add_key show key (lookup key values)) e ∙ e')

add_key-inv :
    (show : ShowOther) (key : String) (o : Option Value) (rest : Outcome (List String) Rendered)
    (found : List String)
    → add_key show key o rest ≡ err found
    → (o ≡ none) ⊎ ((missing : List String) × (rest ≡ err missing))
unfolding add_key
add_key-inv show key none rest found h = inl refl
add_key-inv show key (some v) (ok vs) found h = absurd (ground (arith, h))
add_key-inv show key (some v) (err missing) found h = inr (missing, refl)

err→Missing :
    (show : ShowOther) (values : Fields) (keys : List String) (found : List String)
    → rendered_values show values keys ≡ err found
    → Missing values keys
unfolding rendered_values
err→Missing show values [] found h = absurd (ground (arith, h))
err→Missing show values (key ∷ keys) found h =
    elim (add_key-inv show key (lookup key values) _ found h) [
      | inl absent ↦ at_head absent
      | inr (missing, e) ↦ later (err→Missing show values keys missing e)
    ]

-- The rendering exits exactly if a declared key is missing from the config, whatever the text
-- and the opted-in keys are.
pub substitute_exits :
    (show : ShowOther) (text : Text) (values : Fields) (target_keys collapse : List String)
    → ((found : List String) × (substitute show text values target_keys collapse ≡ err found))
      ↔ Missing values target_keys
unfolding substitute
substitute_exits show text values target_keys collapse = (
  (λ (found, h).
      err→Missing show values target_keys found
        (bind-err (rendered_values show values target_keys) _ found h)),
  (λ m. let (found, e) = Missing→err show values target_keys m in (found, rw e)),
)
