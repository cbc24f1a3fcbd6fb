-- ===== src/Supervisor/Enough.antt =====
-- On `_descendants` of process-supervisor.py: the fuel of a search among finitely many processes.
use mathlib.Core.Path.{subst}
use codex_platform.Base.{
  ℕ, zero, suc, ◌≤◌, ◌<◌, ◌≡◌, ◌↔◌, true, false, List, [], ◌∷◌, ◌++◌, some, elem, if◌then◌else◌,
  inl, inr, Bool-cases, arith, ◌==◌, ==_iff, length,
}
use codex_platform.Supervisor.{minus, is_nil, all_children, descend, descendants}
use codex_platform.Supervisor.Search.{
  elem-append, elem-minus_found, elem-all_children, Below, descendants-iff-Below,
}

-- How many of the processes are not found.
abbrev missing : List ℕ → List ℕ → ℕ
missing [] found = 0
missing (u ∷ us) found = let rest = missing us found in if elem u found then rest else suc rest

missing-le_length : (us found : List ℕ) → missing us found ≤ length us
missing-le_length [] found = omega arith
missing-le_length (u ∷ us) found = ground (arith, missing-le_length us found)

missing-append_le : (us xs ys : List ℕ) → missing us (xs ++ ys) ≤ missing us ys
missing-append_le [] xs ys = omega arith
missing-append_le (u ∷ us) xs ys = ground (arith, missing-append_le us xs ys, elem-append u xs ys)

missing-append_lt :
    (c : ℕ) (us xs ys : List ℕ)
    → elem c us ≡ true
    → elem c xs ≡ true
    → elem c ys ≡ false
    → missing us (xs ++ ys) < missing us ys
missing-append_lt c [] xs ys h new old = absurd (ground (arith, h))
missing-append_lt c (u ∷ us) xs ys h new old = elim (Bool-cases (c == u)) [
  | inl same ↦
      let e : c ≡ u = (==_iff c u).0 same in
      let new_u : elem u xs ≡ true = subst (λ x. elem x xs ≡ true) e new in
      let old_u : elem u ys ≡ false = subst (λ x. elem x ys ≡ false) e old in
      ground (arith, missing-append_le us xs ys, elem-append u xs ys)
  | inr other ↦
      let rest = missing-append_lt c us xs ys (ground arith) new old in
      ground (arith, elem-append u xs ys)
]

some_member : (ps : List ℕ) → is_nil ps ≡ false → (c : ℕ) × (elem c ps ≡ true)
unfolding is_nil
some_member [] h = absurd (ground (arith, h))
some_member (p ∷ ps) h = (p, ground arith)

module _ (children : ℕ → List ℕ) (processes : List ℕ)
    (listed : (p q : ℕ) → elem q (children p) ≡ true → elem q processes ≡ true) where
  descend_ends :
      (fuel : ℕ) (found frontier : List ℕ)
      → missing processes found < fuel
      → (out : List ℕ) × (descend children fuel found frontier ≡ some out)
  unfolding descend
  descend_ends zero found frontier h = absurd (omega arith)
  descend_ends (suc fuel) found frontier h =
      let fresh = minus (all_children children frontier) found in
      elim (Bool-cases (is_nil fresh)) [
        | inl over ↦ (found, rw (over, descend))
        | inr more ↦
            let (c, held) = some_member fresh more in
            let (seen, unknown) = elem-minus_found c (all_children children frontier) found held in
            let (p, _, shown) = elem-all_children children c frontier seen in
            let less = missing-append_lt c processes fresh found (listed p c shown) held unknown in
            let (out, ends) = descend_ends fuel (fresh ++ found) fresh (omega arith) in
            (out, rw (more, descend) ends)
      ]

  descendants_end :
      (root : ℕ) → (out : List ℕ) × (descendants children (suc (length processes)) root ≡ some out)
  unfolding descendants
  descendants_end root =
      descend_ends (suc (length processes)) [] (root ∷ [])
        (omega (arith, missing-le_length processes []))

  -- Where every child stands in a list of processes, a search with one more round of fuel than
  -- this list is long ends, and what it gives holds exactly the descendants of the root: its
  -- children, their children, and so on, also where these relations have a cycle.
  pub descendants-Below :
      (root q : ℕ)
      → (out : List ℕ) × (descendants children (suc (length processes)) root ≡ some out)
        × ((elem q out ≡ true) ↔ Below children root q)
  descendants-Below root q =
      let (out, ends) = descendants_end root in
      (out, ends, descendants-iff-Below children (suc (length processes)) root q out ends)
