-- ===== src/Supervisor.antt =====
-- .codex/skills/agent-loop/scripts/process-supervisor.py: the search for the descendants of a
-- process. What procfs shows as a process's children is a parameter, the same for the whole search.
pub mod Search
pub mod Enough
mod Samples
use codex_platform.Base.{
  ℕ, zero, suc, ◌+◌, Bool, true, false, List, [], ◌∷◌, ◌++◌, Option, none, some, elem,
  if◌then◌else◌,
}

-- `children -= found`
pub minus : List ℕ → List ℕ → List ℕ
minus [] found = []
minus (p ∷ ps) found = let rest = minus ps found in if elem p found then rest else p ∷ rest

pub is_nil : List ℕ → Bool
is_nil [] = true
is_nil (p ∷ ps) = false

module _ (children : ℕ → List ℕ) where
  -- The union over the frontier.
  pub all_children : List ℕ → List ℕ
  all_children [] = []
  all_children (p ∷ ps) = children p ++ all_children ps

  -- The loop of `_descendants`; `none` is a search that is out of fuel.
  pub descend : ℕ → List ℕ → List ℕ → Option (List ℕ)
  descend zero found frontier = none
  descend (suc fuel) found frontier =
      let fresh = minus (all_children frontier) found in
      let rest = descend fuel (fresh ++ found) fresh in if is_nil fresh then some found else rest

  pub descendants : ℕ → ℕ → Option (List ℕ)
  descendants fuel root = descend fuel [] (root ∷ [])

-- Names what a search opens.
unfoldable pub search_run : Unit {0}
unfolding minus is_nil all_children descend descendants
search_run = tt
