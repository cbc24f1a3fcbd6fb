-- ===== src/Supervisor/Samples.antt =====
-- `_descendants` of process-supervisor.py on four processes.
use codex_platform.Base.{
  ℕ, ◌≡◌, refl, ◌↔◌, true, List, [], ◌∷◌, some, elem, if◌then◌else◌, ◌==◌, arith,
}
use codex_platform.Supervisor.{descendants, search_run}
use codex_platform.Supervisor.Search.{Below}
use codex_platform.Supervisor.Enough.{descendants-Below}

abbrev children : ℕ → List ℕ
children p = if p == 1 then 2 ∷ 3 ∷ [] else if p == 2 then 4 ∷ [] else []

abbrev processes : List ℕ
processes = 2 ∷ 3 ∷ 4 ∷ []

three_found : descendants children 4 1 ≡ some (4 ∷ 2 ∷ 3 ∷ [])
unfolding search_run
three_found = refl

children_listed : (p q : ℕ) → elem q (children p) ≡ true → elem q processes ≡ true
children_listed p q h = ground arith

descendants-Below_example :
    (out : List ℕ) × (descendants children 4 1 ≡ some out)
    × ((elem 4 out ≡ true) ↔ Below children 1 4)
descendants-Below_example = descendants-Below children processes children_listed 1 4
