-- ===== src/Queue/Ready/Order.antt =====
-- On the list that `main` of ready.py prints: what its issues satisfy, and its order.
use codex_platform.Base.{
  ℕ, suc, ◌-◌, ◌≡◌, Bool, true, false, List, [], ◌∷◌, Text, zero, length, take, All, Bool-cases,
  inl, inr, arith,
}
use codex_platform.Base.Value.{ℤ, pos, negsuc}
use codex_platform.Queue.Ready.{
  Issue, is_hard_excluded, elem_num, at_most, insert, sort, first_issues, is_blocked, is_ready,
  kept, ready_list,
}

-- Each element's key is at most the keys of all later ones.
pub Sorted : List Issue → Type 0
Sorted [] = Unit
Sorted (i ∷ is) = All (λ j. at_most i j ≡ true) is × Sorted is

-- What the module's documentation promises of an issue in the list.
pub record IsReady (find_blockers : Text → List ℕ) (open_nums addressed : List ℕ) (issue : Issue)
    : Type 0 where
  pub free : is_hard_excluded issue.labels ≡ false
  pub unblocked : is_blocked find_blockers open_nums issue ≡ false
  pub unaddressed : elem_num issue.number addressed ≡ false

at_most_trans : (i j k : Issue) → at_most i j ≡ true → at_most j k ≡ true → at_most i k ≡ true
unfolding at_most
at_most_trans i j k h g = ground arith

at_most_total : (i j : Issue) → at_most i j ≡ false → at_most j i ≡ true
unfolding at_most
at_most_total i j h = ground arith

All-map :
    {P Q : Issue → Type 0} → ((i : Issue) → P i → Q i) → (is : List Issue) → All P is → All Q is
All-map f [] h = tt
All-map f (i ∷ is) (p, h) = (f i p, All-map f is h)

pub All-take : (P : Issue → Type 0) (n : ℕ) (is : List Issue) → All P is → All P (take n is)
All-take P zero is h = tt
All-take P (suc n) [] h = tt
All-take P (suc n) (i ∷ is) (p, h) = (p, All-take P n is h)

All-insert :
    (P : Issue → Type 0) (i : Issue) (is : List Issue) → P i → All P is → All P (insert i is)
unfolding insert
All-insert P i [] p h = (p, tt)
All-insert P i (j ∷ js) p (q, h) = elim (Bool-cases (at_most i j)) [
  | inl before ↦ rw before (p, (q, h))
  | inr after ↦ rw after (q, All-insert P i js p h)
]

All-sort : (P : Issue → Type 0) (is : List Issue) → All P is → All P (sort is)
unfolding sort
All-sort P [] h = tt
All-sort P (i ∷ is) (p, h) = All-insert P i (sort is) p (All-sort P is h)

insert-Sorted : (i : Issue) (is : List Issue) → Sorted is → Sorted (insert i is)
unfolding insert Sorted
insert-Sorted i [] h = (tt, tt)
insert-Sorted i (j ∷ js) (later, h) = elim (Bool-cases (at_most i j)) [
  | inl before ↦
      rw before ((before, All-map (λ k g. at_most_trans i j k before g) js later), (later, h))
  | inr after ↦ rw after (All-insert _ i js (at_most_total i j after) later, insert-Sorted i js h)
]

sort-Sorted : (is : List Issue) → Sorted (sort is)
unfolding sort Sorted
sort-Sorted [] = tt
sort-Sorted (i ∷ is) = insert-Sorted i (sort is) (sort-Sorted is)

take-Sorted : (n : ℕ) (is : List Issue) → Sorted is → Sorted (take n is)
unfolding Sorted
take-Sorted zero is h = tt
take-Sorted (suc n) [] h = tt
take-Sorted (suc n) (i ∷ is) (later, h) = (All-take _ n is later, take-Sorted n is h)

first_issues-Sorted : (limit : ℤ) (is : List Issue) → Sorted is → Sorted (first_issues limit is)
unfolding first_issues
first_issues-Sorted (pos n) is h = take-Sorted n is h
first_issues-Sorted (negsuc n) is h = take-Sorted (length is - suc n) is h

All-first_issues :
    (P : Issue → Type 0) (limit : ℤ) (is : List Issue) → All P is → All P (first_issues limit is)
unfolding first_issues
All-first_issues P (pos n) is h = All-take P n is h
All-first_issues P (negsuc n) is h = All-take P (length is - suc n) is h

module _ (find_blockers : Text → List ℕ) (unassigned : Bool) (open_nums addressed : List ℕ) where
  is_ready-IsReady :
      (i : Issue)
      → is_ready find_blockers unassigned open_nums addressed i ≡ true
      → IsReady find_blockers open_nums addressed i
  unfolding is_ready
  is_ready-IsReady i h = record {
    free = ground arith;
    unblocked = ground arith;
    unaddressed = ground arith;
  }

  kept-IsReady :
      (is : List Issue)
      → All
          (IsReady find_blockers open_nums addressed)
          (kept find_blockers unassigned open_nums addressed is)
  unfolding kept
  kept-IsReady [] = tt
  kept-IsReady (i ∷ is) =
      elim (Bool-cases (is_ready find_blockers unassigned open_nums addressed i)) [
        | inl taken ↦ rw taken (is_ready-IsReady i taken, kept-IsReady is)
        | inr left ↦ rw left (kept-IsReady is)
      ]

  -- Whatever the limit, every issue of the printed list carries no excluding label, has no
  -- blocker that is still open and is not addressed by a pull request, and the list is in the
  -- order of (priority, number).
  pub ready_list_lem :
      (limit : ℤ) (issues : List Issue)
      → All
          (IsReady find_blockers open_nums addressed)
          (ready_list find_blockers unassigned open_nums addressed limit issues)
        × Sorted (ready_list find_blockers unassigned open_nums addressed limit issues)
  unfolding ready_list
  ready_list_lem limit issues =
      let found = kept find_blockers unassigned open_nums addressed issues in
      (
        All-first_issues _ limit (sort found) (All-sort _ found (kept-IsReady issues)),
        first_issues-Sorted limit (sort found) (sort-Sorted found),
      )
