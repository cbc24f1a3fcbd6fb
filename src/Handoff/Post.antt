-- ===== src/Handoff/Post.antt =====
-- `_verify_head`, `_verify_issue_comment` and `_post_issue_comment` of local-review-handoff.py. What
-- GitHub shows and what becomes of a post are parameters; a post alone changes its state.
pub mod Posted
use codex_platform.Base.{
  ℕ, String, Bool, true, false, not, ◌&&◌, ◌||◌, List, [], ◌∷◌, Option, none, some, Text, text_eq,
  ◌==◌, if◌then◌else◌,
}
use codex_platform.Base.Outcome.{Outcome, ok, err, reject, or_raise, ◌>>=◌, ◌>>◌}
use codex_platform.Handoff.Comments.{
  HandoffError, head_moved, unverified_comment, key_unresolved, Comment, matching_body, body_is,
}

-- `comments` are the actor's own; `shown` is one comment by its id, where it is the actor's; `posted`
-- is the id that a post gives, or none where gh fails or gives no id.
pub record Hub : Type 1 where
  pub State : Type 0
  pub comments : State → Outcome HandoffError (List Comment)
  pub head : State → Outcome HandoffError Text
  pub shown : State → ℕ → Outcome HandoffError (Option Text)
  pub post : Text → State → State × Outcome HandoffError ℕ

module _ (hub : Hub) where
  open hub use {State, comments, head, shown, post}

  pub verify_head : Text → State → Outcome HandoffError (Unit {0})
  verify_head expected state = do
    actual ← head state
    reject (not (text_eq actual expected)) head_moved

  pub found : Text → Text → State → Outcome HandoffError (Option ℕ)
  found marker body state = do rows ← comments state; matching_body rows marker body

  pub verify_issue_comment : ℕ → Text → State → Outcome HandoffError (Unit {0})
  verify_issue_comment id body state = do
    text ← shown state id
    reject (not (body_is body text)) unverified_comment

  abbrev pub is_id : ℕ → Option ℕ → Bool
  is_id id none = false
  is_id id (some other) = other == id

  -- What is checked of the comment in the end.
  pub settled : Text → Text → ℕ → Bool → State → Outcome HandoffError (ℕ × Bool)
  settled marker body id replayed state = do
    verify_issue_comment id body state
    again ← found marker body state
    reject (not (is_id id again)) key_unresolved
    ok (id, replayed)

  -- After a post that gave an error, the comment may be there all the same.
  pub after_error : Text → Text → HandoffError → State → Outcome HandoffError (ℕ × Bool)
  after_error marker body e state = do
    there ← found marker body state
    id ← or_raise e there
    settled marker body id true state

  pub after_post :
      Text → Text → State × Outcome HandoffError ℕ → State × Outcome HandoffError (ℕ × Bool)
  after_post marker body (state, ok id) = (state, settled marker body id false state)
  after_post marker body (state, err e) = (state, after_error marker body e state)

  -- A comment that is there already is not posted again.
  pub post_unless :
      Text
      → Text
      → State
      → Outcome HandoffError (Option ℕ)
      → State × Outcome HandoffError (ℕ × Bool)
  post_unless marker body state (err e) = (state, err e)
  post_unless marker body state (ok (some id)) = (state, settled marker body id true state)
  post_unless marker body state (ok none) = after_post marker body (post body state)

  pub post_issue_comment : Text → Text → State → State × Outcome HandoffError (ℕ × Bool)
  post_issue_comment marker body state = post_unless marker body state (found marker body state)

-- Names what a post opens.
unfoldable pub post_run : Unit {0}
unfolding verify_head found verify_issue_comment settled after_error after_post post_unless
    post_issue_comment
post_run = tt
