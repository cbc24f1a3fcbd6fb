-- ===== src/Supervisor/Search.antt =====
-- On `_descendants` of process-supervisor.py: the processes that a search finds, as a relation.
use mathlib.Core.Path.{subst}
use codex_platform.Base.{
  ℕ, zero, suc, ◌≡◌, refl, sym, ◌∙◌, ◌↔◌, Bool, true, false, ◌||◌, List, [], ◌∷◌, ◌++◌, some, elem,
  ◌⊎◌, inl, inr, Bool-cases, arith, ◌==◌, ==_iff,
}
use codex_platform.Supervisor.{minus, is_nil, all_children, descend, descendants}

pub elem-append : (n : ℕ) (xs ys : List ℕ) → elem n (xs ++ ys) ≡ (elem n xs || elem n ys)
elem-append n [] ys = refl
elem-append n (x ∷ xs) ys = ground (arith, elem-append n xs ys)

pub elem-minus_found :
    (q : ℕ) (ps found : List ℕ)
    → elem q (minus ps found) ≡ true
    → (elem q ps ≡ true) × (elem q found ≡ false)
unfolding minus
elem-minus_found q [] found h = absurd (ground (arith, h))
elem-minus_found q (p ∷ ps) found h = elim (Bool-cases (elem p found)) [
  | inl old ↦ let (a, b) = elem-minus_found q ps found (rw old at h) in (ground arith, b)
  | inr new ↦ elim (Bool-cases (q == p)) [
    | inl same ↦ (ground arith, subst (λ r. elem r found ≡ false) (sym ((==_iff q p).0 same)) new)
    | inr other ↦
        let shown : ((q == p) || elem q (minus ps found)) ≡ true = rw new at h in
        let (a, b) = elem-minus_found q ps found (ground arith) in (ground arith, b)
  ]
]

pub elem-minus_cases :
    (q : ℕ) (ps found : List ℕ)
    → elem q ps ≡ true
    → (elem q (minus ps found) ≡ true) ⊎ (elem q found ≡ true)
unfolding minus
elem-minus_cases q [] found h = absurd (ground (arith, h))
elem-minus_cases q (p ∷ ps) found h = elim (Bool-cases (q == p)) [
  | inl same ↦ elim (Bool-cases (elem p found)) [
    | inl old ↦ inr (subst (λ r. elem r found ≡ true) (sym ((==_iff q p).0 same)) old)
    | inr new ↦ inl (rw new (ground arith))
  ]
  | inr other ↦ elim (elem-minus_cases q ps found (ground arith)) [
    | inr old ↦ inr old
    | inl fresh ↦ elim (Bool-cases (elem p found)) [
      | inl old ↦ inl (rw old fresh)
      | inr new ↦ inl (rw new (ground arith))
    ]
  ]
]

is_nil-elem : (ps : List ℕ) (q : ℕ) → is_nil ps ≡ true → elem q ps ≡ false
unfolding is_nil
is_nil-elem [] q h = refl
is_nil-elem (p ∷ ps) q h = absurd (ground (arith, h))

or-cases : (a b : Bool) → (a || b) ≡ true → (a ≡ true) ⊎ (b ≡ true)
or-cases a b h = ground arith

or-join : (a b : Bool) → (a ≡ true) ⊎ (b ≡ true) → (a || b) ≡ true
or-join a b (inl h) = ground arith
or-join a b (inr h) = ground arith

only_root : (root p : ℕ) → elem p (root ∷ []) ≡ true → p ≡ root
only_root root p h = ground arith

root_waits :
    (root p q : ℕ)
    → (p ≡ root) ⊎ (elem p [] ≡ true)
    → (elem p (root ∷ []) ≡ true) ⊎ (elem q [] ≡ true)
root_waits root p q (inl same) = inl (ground arith)
root_waits root p q (inr held) = absurd (ground (arith, held))

module _ (children : ℕ → List ℕ) where
  -- A descendant: a child of the root or of a descendant.
  pub data Below (root : ℕ) : ℕ → Type 0 where
    child : {q : ℕ} → elem q (children root) ≡ true → Below root q
    deeper : {p q : ℕ} → Below root p → elem q (children p) ≡ true → Below root q

  pub elem-all_children :
      (q : ℕ) (ps : List ℕ)
      → elem q (all_children children ps) ≡ true
      → (p : ℕ) × (elem p ps ≡ true) × (elem q (children p) ≡ true)
  unfolding all_children
  elem-all_children q [] h = absurd (ground (arith, h))
  elem-all_children q (p ∷ ps) h =
      elim (or-cases _ _ (sym (elem-append q (children p) (all_children children ps)) ∙ h)) [
        | inl here ↦ (p, ground arith, here)
        | inr later ↦
            let (r, held, shown) = elem-all_children q ps later in (r, ground arith, shown)
      ]

  all_children-elem :
      (p q : ℕ) (ps : List ℕ)
      → elem p ps ≡ true
      → elem q (children p) ≡ true
      → elem q (all_children children ps) ≡ true
  unfolding all_children
  all_children-elem p q [] h shown = absurd (ground (arith, h))
  all_children-elem p q (r ∷ ps) h shown =
      elem-append q (children r) (all_children children ps) ∙ elim (Bool-cases (p == r)) [
        | inl same ↦
            let here : elem q (children r) ≡ true =
              subst (λ x. elem q (children x) ≡ true) ((==_iff p r).0 same) shown in
            ground arith
        | inr other ↦ let later = all_children-elem p q ps (ground arith) shown in ground arith
      ]

  -- Where the root and what is found have their children.
  abbrev Explored : ℕ → List ℕ → List ℕ → Type 0
  Explored root found frontier =
      (p q : ℕ)
      → (p ≡ root) ⊎ (elem p found ≡ true)
      → elem q (children p) ≡ true
      → (elem p frontier ≡ true) ⊎ (elem q found ≡ true)

  abbrev AllBelow : ℕ → List ℕ → Type 0
  AllBelow root ps = (p : ℕ) → elem p ps ≡ true → Below root p

  abbrev FromRoot : ℕ → List ℕ → Type 0
  FromRoot root ps = (p : ℕ) → elem p ps ≡ true → (p ≡ root) ⊎ Below root p

  fresh-Below :
      (root : ℕ) (found frontier : List ℕ)
      → FromRoot root frontier
      → AllBelow root (minus (all_children children frontier) found)
  fresh-Below root found frontier from q h =
      let (p, held, shown) = elem-all_children q frontier (elem-minus_found q _ found h).0 in
      elim (from p held) [
        | inl same ↦ child (subst (λ x. elem q (children x) ≡ true) same shown)
        | inr below ↦ deeper below shown
      ]

  AllBelow-append :
      (root : ℕ) (xs ys : List ℕ) → AllBelow root xs → AllBelow root ys → AllBelow root (xs ++ ys)
  AllBelow-append root xs ys bx by q h = elim (or-cases _ _ (sym (elem-append q xs ys) ∙ h)) [
    | inl a ↦ bx q a
    | inr b ↦ by q b
  ]

  descend-cases :
      (fuel : ℕ) (found frontier out : List ℕ)
      → descend children (suc fuel) found frontier ≡ some out
      → ((is_nil (minus (all_children children frontier) found) ≡ true) × (found ≡ out))
        ⊎ (descend children fuel
              (minus (all_children children frontier) found ++ found)
              (minus (all_children children frontier) found)
            ≡ some out)
  unfolding descend
  descend-cases fuel found frontier out h =
      elim (Bool-cases (is_nil (minus (all_children children frontier) found))) [
        | inl over ↦ inl (over, ground arith)
        | inr more ↦ inr (ground arith)
      ]

  descend-AllBelow :
      (fuel root : ℕ) (found frontier out : List ℕ)
      → AllBelow root found
      → FromRoot root frontier
      → descend children fuel found frontier ≡ some out
      → AllBelow root out
  unfolding descend
  descend-AllBelow zero root found frontier out bf from h = absurd (ground (arith, h))
  descend-AllBelow (suc fuel) root found frontier out bf from h =
      let fresh = minus (all_children children frontier) found in
      let below = fresh-Below root found frontier from in
      elim (descend-cases fuel found frontier out h) [
        | inl (over, same) ↦ subst (AllBelow root) same bf
        | inr more ↦
            descend-AllBelow fuel root (fresh ++ found) fresh out
              (AllBelow-append root fresh found below bf) (λ q held. inr (below q held)) more
      ]

  -- What is found is closed: a child of the root or of a found process is found.
  abbrev Closed : ℕ → List ℕ → Type 0
  Closed root found =
      (p q : ℕ)
      → (p ≡ root) ⊎ (elem p found ≡ true)
      → elem q (children p) ≡ true
      → elem q found ≡ true

  Explored-fresh :
      (root : ℕ) (found frontier : List ℕ)
      → Explored root found frontier
      → (p q : ℕ) → (p ≡ root) ⊎ (elem p found ≡ true)
      → elem q (children p) ≡ true
      → (elem q (minus (all_children children frontier) found) ≡ true) ⊎ (elem q found ≡ true)
  Explored-fresh root found frontier explored p q held shown = elim (explored p q held shown) [
    | inl waiting ↦ elem-minus_cases q _ found (all_children-elem p q frontier waiting shown)
    | inr known ↦ inr known
  ]

  Explored-step :
      (root : ℕ) (found frontier : List ℕ)
      → Explored root found frontier
      → Explored root
          (minus (all_children children frontier) found ++ found)
          (minus (all_children children frontier) found)
  Explored-step root found frontier explored p q (inl same) shown = inr (
      elem-append q (minus (all_children children frontier) found) found
      ∙ or-join _ _ (Explored-fresh root found frontier explored p q (inl same) shown))
  Explored-step root found frontier explored p q (inr held) shown =
      elim (or-cases _ _
        (sym (elem-append p (minus (all_children children frontier) found) found) ∙ held)) [
          | inl new ↦ inl new
          | inr old ↦ inr (
              elem-append q (minus (all_children children frontier) found) found
              ∙ or-join _ _ (Explored-fresh root found frontier explored p q (inr old) shown))
        ]

  descend-Closed :
      (fuel root : ℕ) (found frontier out : List ℕ)
      → Explored root found frontier
      → descend children fuel found frontier ≡ some out
      → Closed root out
  unfolding descend
  descend-Closed zero root found frontier out explored h = absurd (ground (arith, h))
  descend-Closed (suc fuel) root found frontier out explored h =
      let fresh = minus (all_children children frontier) found in
      elim (descend-cases fuel found frontier out h) [
        | inl (over, same) ↦ subst (Closed root) same (λ p q held shown.
            elim (Explored-fresh root found frontier explored p q held shown) [
              | inl new ↦ absurd (ground (arith, is_nil-elem fresh q over, new))
              | inr old ↦ old
            ])
        | inr more ↦
            descend-Closed fuel root (fresh ++ found) fresh out
              (Explored-step root found frontier explored) more
      ]

  Closed-Below : {root q : ℕ} (out : List ℕ) → Closed root out → Below root q → elem q out ≡ true
  Closed-Below {root} {q} out closed (child shown) = closed root q (inl refl) shown
  Closed-Below {root} {q} out closed (deeper {p} below shown) =
      closed p q (inr (Closed-Below out closed below)) shown

  pub descendants-iff-Below :
      (fuel root q : ℕ) (out : List ℕ)
      → descendants children fuel root ≡ some out
      → (elem q out ≡ true) ↔ Below root q
  unfolding descendants
  descendants-iff-Below fuel root q out h = (
    descend-AllBelow fuel root [] (root ∷ []) out (λ p held. absurd (ground (arith, held)))
        (λ p held. inl (only_root root p held)) h q,
    Closed-Below out (
        descend-Closed fuel root [] (root ∷ []) out (λ p r held shown. root_waits root p r held) h),
  )
