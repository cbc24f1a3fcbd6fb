-- ===== src/Queue/Ready/Complete.antt =====
-- On the list that `main` of ready.py prints: which issues are in it.
use mathlib.Core.Path.{subst}
use codex_platform.Base.{
  ℕ, suc, ◌≤◌, ◌≡◌, refl, sym, Bool, true, List, [], ◌∷◌, Text, zero, length, take, Bool-cases, inl,
  inr, arith,
}
use codex_platform.Base.Value.{pos}
use codex_platform.Queue.Ready.{
  Issue, at_most, insert, sort, first_issues, is_ready, kept, ready_list,
}

pub data Holds (i : Issue) : List Issue → Type 0 where
  here : {j : Issue} {is : List Issue} → j ≡ i → Holds i (j ∷ is)
  there : {j : Issue} {is : List Issue} → Holds i is → Holds i (j ∷ is)

Holds-insert_self : (i : Issue) (is : List Issue) → Holds i (insert i is)
unfolding insert
Holds-insert_self i [] = here refl
Holds-insert_self i (j ∷ js) = elim (Bool-cases (at_most i j)) [
  | inl before ↦ rw before (here refl)
  | inr after ↦ rw after (there (Holds-insert_self i js))
]

Holds-insert : (i j : Issue) (is : List Issue) → Holds i is → Holds i (insert j is)
unfolding insert
Holds-insert i j [] h = elim h [ ]
Holds-insert i j (k ∷ ks) (here e) = elim (Bool-cases (at_most j k)) [
  | inl before ↦ rw before (there (here e))
  | inr after ↦ rw after (here e)
]
Holds-insert i j (k ∷ ks) (there h) = elim (Bool-cases (at_most j k)) [
  | inl before ↦ rw before (there (there h))
  | inr after ↦ rw after (there (Holds-insert i j ks h))
]

Holds-sort : (i : Issue) (is : List Issue) → Holds i is → Holds i (sort is)
unfolding sort
Holds-sort i [] h = elim h [ ]
Holds-sort i (j ∷ is) (here e) =
    subst (λ k. Holds i (insert k (sort is))) (sym e) (Holds-insert_self i (sort is))
Holds-sort i (j ∷ is) (there h) = Holds-insert i j (sort is) (Holds-sort i is h)

length-insert : (i : Issue) (is : List Issue) → length (insert i is) ≡ suc (length is)
unfolding insert
length-insert i [] = refl
length-insert i (j ∷ js) = elim (Bool-cases (at_most i j)) [
  | inl before ↦ rw before
  | inr after ↦ rw after (omega (arith, length-insert i js))
]

length-sort : (is : List Issue) → length (sort is) ≡ length is
unfolding sort
length-sort [] = refl
length-sort (i ∷ is) = omega (arith, length-insert i (sort is), length-sort is)

take-all : (n : ℕ) (is : List Issue) → length is ≤ n → take n is ≡ is
take-all zero [] h = refl
take-all zero (i ∷ is) h = absurd (omega arith)
take-all (suc n) [] h = refl
take-all (suc n) (i ∷ is) h = rw (take-all n is (omega arith))

module _ (find_blockers : Text → List ℕ) (unassigned : Bool) (open_nums addressed : List ℕ) where
  Holds-kept :
      (i : Issue) (is : List Issue)
      → is_ready find_blockers unassigned open_nums addressed i ≡ true
      → Holds i is
      → Holds i (kept find_blockers unassigned open_nums addressed is)
  unfolding kept
  Holds-kept i [] ready h = elim h [ ]
  Holds-kept i (j ∷ is) ready (here e) = rw (e, ready) (here refl)
  Holds-kept i (j ∷ is) ready (there h) =
      elim (Bool-cases (is_ready find_blockers unassigned open_nums addressed j)) [
        | inl taken ↦ rw taken (there (Holds-kept i is ready h))
        | inr left ↦ rw left (Holds-kept i is ready h)
      ]

  -- An issue of the given list that passes every test of the loop is printed, if the limit is
  -- not negative and at least the number of issues that pass.
  pub ready_list-Holds :
      (n : ℕ) (issues : List Issue) (i : Issue)
      → Holds i issues
      → is_ready find_blockers unassigned open_nums addressed i ≡ true
      → length (kept find_blockers unassigned open_nums addressed issues) ≤ n
      → Holds i (ready_list find_blockers unassigned open_nums addressed (pos n) issues)
  unfolding ready_list first_issues
  ready_list-Holds n issues i h ready enough =
      let found = kept find_blockers unassigned open_nums addressed issues in
      rw (take-all n (sort found) (omega (arith, enough, length-sort found)))
        (Holds-sort i found (Holds-kept i issues ready h))
