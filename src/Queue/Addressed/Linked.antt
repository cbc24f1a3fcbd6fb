-- ===== src/Queue/Addressed/Linked.antt =====
-- On `fetch_addressed_numbers` of ready.py: membership in what it gives.
use mathlib.Core.Path.{ap₂}
use codex_platform.Base.{
  ℕ, ◌≡◌, ◌==◌, refl, ◌∙◌, Bool, not, ◌&&◌, ◌||◌, List, [], ◌∷◌, ◌++◌, Text, any, Bool-cases, inl,
  Option, none, some, String, str_eq, text_eq, codes, if◌then◌else◌, inr, arith,
}
use codex_platform.Queue.Ready.{elem_num}
use codex_platform.Queue.Addressed.{
  Ref, PullRequest, ref_repo, of_repo, or_keywords, closes, parse_closing_keywords,
  addressed_numbers, addressed_run,
}

elem_num-append :
    (n : ℕ) (xs ys : List ℕ) → elem_num n (xs ++ ys) ≡ (elem_num n xs || elem_num n ys)
elem_num-append n [] ys = refl
elem_num-append n (x ∷ xs) ys = ground (arith, elem_num-append n xs ys)

abbrev pub given : Option String → String
given none = ""
given (some s) = s

-- A link into the repository: its owner and its name are given, not empty, and make up the
-- repository's name.
abbrev links_to : Text → String → String → Bool
links_to repo owner name =
    not (str_eq owner "" || str_eq name "") && text_eq (codes owner ++ b'/' ∷ codes name) repo

abbrev pub links : Text → Ref → Bool
links repo r = links_to repo (given r.owner) (given r.name)

ref_repo-links_to :
    (repo : Text) (owner name : Option String) (a b : List ℕ)
    → elim (ref_repo owner name) [ none ↦ b | some full ↦ if text_eq full repo then a else b ]
      ≡ (if links_to repo (given owner) (given name) then a else b)
unfolding addressed_run
ref_repo-links_to repo none name a b = refl
ref_repo-links_to repo (some owner) none a b = ground arith
ref_repo-links_to repo (some owner) (some name) a b =
    elim (Bool-cases (str_eq owner "" || str_eq name "")) [
      | inl missing ↦ rw missing refl
      | inr there ↦ rw there refl
    ]

module _ (is_space : ℕ → Bool) (splitlines : Text → List Text) (find_closing : Text → List ℕ) where
  of_repo-links :
      (repo : Text) (r : Ref) (rs : List Ref)
      → of_repo is_space splitlines find_closing repo (r ∷ rs) ≡ (
          if links repo r
          then r.number ∷ of_repo is_space splitlines find_closing repo rs
          else of_repo is_space splitlines find_closing repo rs)
  unfolding of_repo
  of_repo-links repo r rs = ref_repo-links_to repo r.owner r.name _ _

  -- What a pull request closes: what it links to in the repository or, where it links to nothing
  -- there, what its body names.
  abbrev pub closes_number : Text → ℕ → PullRequest → Bool
  closes_number repo n pr =
      if any (links repo) pr.refs
      then any (λ r. links repo r && n == r.number) pr.refs
      else elem_num n (parse_closing_keywords is_space splitlines find_closing pr.body)

  elem_num-of_repo :
      (repo : Text) (n : ℕ) (rs : List Ref)
      → elem_num n (of_repo is_space splitlines find_closing repo rs)
        ≡ any (λ r. links repo r && n == r.number) rs
  unfolding of_repo
  elem_num-of_repo repo n [] = refl
  elem_num-of_repo repo n (r ∷ rs) = elim (Bool-cases (links repo r)) [
    | inl linked ↦ rw (of_repo-links repo r rs, linked, elem_num-of_repo repo n rs) refl
    | inr other ↦ rw (of_repo-links repo r rs, other, elem_num-of_repo repo n rs) refl
  ]

  elem_num-or_keywords :
      (repo : Text) (n : ℕ) (rs : List Ref) (body : Text)
      → elem_num n (
          or_keywords is_space splitlines find_closing
            (of_repo is_space splitlines find_closing repo rs)
            body)
        ≡ (if any (links repo) rs
            then any (λ r. links repo r && n == r.number) rs
            else elem_num n (parse_closing_keywords is_space splitlines find_closing body))
  unfolding of_repo or_keywords
  elem_num-or_keywords repo n [] body = refl
  elem_num-or_keywords repo n (r ∷ rs) body = elim (Bool-cases (links repo r)) [
    | inl linked ↦ rw (of_repo-links repo r rs, linked, elem_num-of_repo repo n rs) refl
    | inr other ↦ rw (of_repo-links repo r rs, other) (elem_num-or_keywords repo n rs body)
  ]

  elem_num-closes :
      (repo : Text) (n : ℕ) (pr : PullRequest)
      → elem_num n (closes is_space splitlines find_closing repo pr) ≡ closes_number repo n pr
  unfolding closes
  elem_num-closes repo n pr = elem_num-or_keywords repo n pr.refs pr.body

  -- A number is among the addressed ones exactly if one of the pull requests whose own number
  -- is not excluded closes it: where one of its links names the repository by an owner and a
  -- name that are not empty, the number is that of such a link, and elsewhere it is among the
  -- closing keywords of its body.
  pub addressed_numbers_lem :
      (repo : Text) (excluded : List ℕ) (prs : List PullRequest) (n : ℕ)
      → elem_num n (addressed_numbers is_space splitlines find_closing repo excluded prs)
        ≡ any (λ pr. not (elem_num pr.number excluded) && closes_number repo n pr) prs
  unfolding addressed_numbers
  addressed_numbers_lem repo excluded [] n = refl
  addressed_numbers_lem repo excluded (pr ∷ prs) n =
      elim (Bool-cases (elem_num pr.number excluded)) [
        | inl out ↦ rw out (addressed_numbers_lem repo excluded prs n)
        | inr taken ↦ rw taken (
            elem_num-append n (closes is_space splitlines find_closing repo pr) _
            ∙ ap₂ (λ a b. a || b) (elem_num-closes repo n pr)
                (addressed_numbers_lem repo excluded prs n))
      ]
