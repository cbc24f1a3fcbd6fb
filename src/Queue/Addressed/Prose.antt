-- ===== src/Queue/Addressed/Prose.antt =====
-- On `parse_closing_keywords` of ready.py: the lines that its loop leaves out of a body.
use codex_platform.Base.{
  ℕ, ◌≡◌, ◌∙◌, refl, Bool, true, false, List, [], ◌∷◌, ◌++◌, Text, any, or-false,
}
use codex_platform.Queue.Addressed.{is_fence, prose}

module _ (is_space : ℕ → Bool) where
  fenced_lines :
      (block rest : List Text)
      → any is_fence block ≡ false
      → prose is_space true false (block ++ rest) ≡ prose is_space true false rest
  unfolding prose
  fenced_lines [] rest h = refl
  fenced_lines (line ∷ block) rest h =
      let (plain, others) = or-false (is_fence line) (any is_fence block) h in
      rw plain (fenced_lines block rest others)

  -- At the start of a line outside a fence and a comment, a fence line, lines that are no fence
  -- lines, and another fence line add nothing to the prose.
  pub prose-fenced :
      (first last : Text) (block rest : List Text)
      → is_fence first ≡ true
      → any is_fence block ≡ false
      → is_fence last ≡ true
      → prose is_space false false (first ∷ block ++ last ∷ rest) ≡ prose is_space false false rest
  unfolding prose
  prose-fenced first last block rest opened inside closed =
      rw opened (fenced_lines block (last ∷ rest) inside ∙ rw closed)
