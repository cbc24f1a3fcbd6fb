-- ===== src/Handoff/Post/Posted.antt =====
-- On `_post_issue_comment` of local-review-handoff.py: what holds of the comments once it returns.
use codex_platform.Base.{
  ℕ, ◌≡◌, refl, ap, sym, ◌∙◌, ◌⊎◌, inl, inr, Bool, true, false, not, Option, none, some, Text,
  ==_iff, not-false,
}
use codex_platform.Base.Outcome.{
  Outcome, ok, err, reject, or_raise, >>=-eq-ok, >>-eq-ok, reject-eq-ok, ok_inj,
}
use codex_platform.Handoff.Comments.{HandoffError, key_unresolved}
use codex_platform.Handoff.Post.{
  Hub, found, verify_issue_comment, is_id, settled, after_error, after_post, post_unless,
  post_issue_comment,
}

module _ (hub : Hub) where
  open hub use {State, post}

  is_id-eq : (id : ℕ) (o : Option ℕ) → is_id hub id o ≡ true → o ≡ some id
  is_id-eq id none h = cc
  is_id-eq id (some other) h = ap some ((==_iff other id).0 h)

  settled-found :
      (marker body : Text) (id shown_id : ℕ) (replayed shown_replayed : Bool) (state : State)
      → settled hub marker body id replayed state ≡ ok (shown_id, shown_replayed)
      → (found hub marker body state ≡ ok (some shown_id)) × (shown_replayed ≡ replayed)
  unfolding settled
  settled-found marker body id shown_id replayed shown_replayed state h =
      let (_, h1) = >>-eq-ok (verify_issue_comment hub id body state) _ h in
      let (again, seen, h2) = >>=-eq-ok (found hub marker body state) _ h1 in
      let (same, h3) = >>-eq-ok (reject (not (is_id hub id again)) key_unresolved) _ h2 in
      let there = is_id-eq id again (not-false _ (reject-eq-ok _ key_unresolved same)) in
      let pair = ok_inj h3 in
      (
        seen ∙ ap ok there ∙ ap (λ (p : ℕ × Bool). ok (some p.0)) pair,
        ap (λ (p : ℕ × Bool). p.1) (sym pair),
      )

  after_post-found :
      (marker body : Text) (posted : State × Outcome HandoffError ℕ) (id : ℕ) (replayed : Bool)
      → (after_post hub marker body posted).1 ≡ ok (id, replayed)
      → ((after_post hub marker body posted).0 ≡ posted.0)
        × (found hub marker body posted.0 ≡ ok (some id))
  unfolding after_post after_error
  after_post-found marker body (state, ok new_id) id replayed h =
      (refl, (settled-found marker body new_id id false replayed state h).0)
  after_post-found marker body (state, err e) id replayed h =
      let (there, seen, h1) = >>=-eq-ok (found hub marker body state) _ h in
      let (old_id, _, h2) = >>=-eq-ok (or_raise e there) _ h1 in
      (refl, (settled-found marker body old_id id true replayed state h2).0)

  -- If `_post_issue_comment` returns an id, exactly this comment has the key afterwards, with
  -- the given body, and the state is the one before, or no comment had the key and the state is
  -- that after one post.
  pub posted_once :
      (marker body : Text) (state : State) (id : ℕ) (replayed : Bool)
      → (post_issue_comment hub marker body state).1 ≡ ok (id, replayed)
      → (found hub marker body (post_issue_comment hub marker body state).0 ≡ ok (some id))
        × (((post_issue_comment hub marker body state).0 ≡ state)
            ⊎ ((found hub marker body state ≡ ok none)
                × ((post_issue_comment hub marker body state).0 ≡ (post body state).0)))
  unfolding post_issue_comment post_unless
  posted_once marker body state id replayed h = from (found hub marker body state) refl h
    where
      from :
          (before : Outcome HandoffError (Option ℕ))
          → found hub marker body state ≡ before
          → (post_unless hub marker body state before).1 ≡ ok (id, replayed)
          → (found hub marker body (post_unless hub marker body state before).0 ≡ ok (some id))
            × (((post_unless hub marker body state before).0 ≡ state)
                ⊎ ((found hub marker body state ≡ ok none)
                    × ((post_unless hub marker body state before).0 ≡ (post body state).0)))
      from (err raised) e h = cc
      from (ok (some old_id)) e h =
          ((settled-found marker body old_id id true replayed state h).0, inl refl)
      from (ok none) e h =
          let (same, there) = after_post-found marker body (post body state) id replayed h in
          (ap (found hub marker body) same ∙ there, inr (e, same))
