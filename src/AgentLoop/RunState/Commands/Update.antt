-- ===== src/AgentLoop/RunState/Commands/Update.antt =====
-- On `_update` of agent-loop-state.py: what becomes of the fields of the run state.
use codex_platform.Base.{
  String, ◌≡◌, refl, ap, ◌∙◌, true, false, inl, inr, List, [], ◌∷◌, Option, none, some, arith,
  str_eq, Bool-cases, or-false,
}
use codex_platform.Base.Outcome.{ok, >>=-eq-ok}
use codex_platform.Base.Value.{ℤ, Value, null, str, Fields, lookup, lookup-put, elem_str}
use codex_platform.AgentLoop.Disk.{Disk, Faults}
use codex_platform.AgentLoop.RunState.Commands.{
  read, UpdateArgs, with_round, with_text, engine_value, with_progress, put_results, converge,
  is_early, with_results, updated_fields, update, show,
}
use codex_platform.AgentLoop.RunState.Commands.Writes.{update_reads_back}

lookup-with_round :
    (j : String) (n : Option ℤ) (fs : Fields)
    → str_eq "round" j ≡ false
    → lookup j (with_round n fs) ≡ lookup j fs
unfolding with_round
lookup-with_round j none fs h = refl
lookup-with_round j (some n) fs h = simp (lookup-put, h)

lookup-with_text :
    (j key : String) (o : Option String) (fs : Fields)
    → str_eq key j ≡ false
    → lookup j (with_text key o fs) ≡ lookup j fs
unfolding with_text
lookup-with_text j key none fs h = refl
lookup-with_text j key (some s) fs h = simp (lookup-put, h)

-- The keys that `update` may change.
abbrev pub mutable_keys : List String
mutable_keys =
    "phase" ∷ "reviewEngine" ∷ "round" ∷ "baseSha" ∷ "headSha" ∷ "codexResultSha256"
    ∷ "claudeResultSha256" ∷ []

-- What `j` is none of, name by name.
abbrev pub Ne : String → List String → Type 0
Ne j [] = Unit
Ne j (k ∷ ks) = (str_eq k j ≡ false) × Ne j ks

Ne_of_elem : (j : String) (ks : List String) → elem_str j ks ≡ false → Ne j ks
Ne_of_elem j [] h = tt
Ne_of_elem j (k ∷ ks) h = let (a, b) = or-false (str_eq k j) _ h in (a, Ne_of_elem j ks b)

pub lookup-with_progress :
    (j : String) (args : UpdateArgs) (fs : Fields)
    → Ne j ("phase" ∷ "reviewEngine" ∷ "round" ∷ "baseSha" ∷ "headSha" ∷ [])
    → lookup j (with_progress args fs) ≡ lookup j fs
unfolding with_progress
lookup-with_progress j args fs (phase, (engine, (round, (base, (head, _))))) = simp (
  lookup-with_text j "headSha" args.head_sha _ head,
  lookup-with_text j "baseSha" args.base_sha _ base,
  lookup-with_round j args.round _ round,
  lookup-put,
  engine,
  phase,
)

-- The three ways that `update` treats the review results.
pub data Results (args : UpdateArgs) (fs gs : Fields) : Type 0 where
  cleared : is_early args.phase ≡ true → gs ≡ put_results null null fs → Results args fs gs
  recorded :
      (codex claude : String)
      → is_early args.phase ≡ false
      → str_eq args.phase "converged" ≡ true
      → args.codex_result_sha256 ≡ some codex
      → args.claude_result_sha256 ≡ some claude
      → gs ≡ put_results (str codex) (str claude) fs
      → Results args fs gs
  carried :
      is_early args.phase ≡ false
      → str_eq args.phase "converged" ≡ false
      → gs ≡ fs
      → Results args fs gs

converge-inv :
    (codex claude : Option String) (fs gs : Fields)
    → converge codex claude fs ≡ ok gs
    → (c : String) × (k : String) × (codex ≡ some c)
      × (claude ≡ some k)
      × (gs ≡ put_results (str c) (str k) fs)
unfolding converge
converge-inv (some c) (some k) fs gs h = (c, k, refl, refl, cc)
converge-inv none (some k) fs gs h = cc
converge-inv none none fs gs h = cc
converge-inv (some c) none fs gs h = cc

with_results-Results :
    (args : UpdateArgs) (fs gs : Fields) → with_results args fs ≡ ok gs → Results args fs gs
unfolding with_results
with_results-Results args fs gs h = elim (Bool-cases (is_early args.phase)) [
  | inl early ↦ cleared early (ground arith)
  | inr late ↦ elim (Bool-cases (str_eq args.phase "converged")) [
    | inl converged ↦
        let (c, k, ec, ek, e) =
          converge-inv args.codex_result_sha256 args.claude_result_sha256 fs gs (ground arith) in
        recorded c k late converged ec ek e
    | inr other ↦ carried late other (ground arith)
  ]
]

lookup-put_results :
    (j : String) (codex claude : Value) (fs : Fields)
    → Ne j ("codexResultSha256" ∷ "claudeResultSha256" ∷ [])
    → lookup j (put_results codex claude fs) ≡ lookup j fs
unfolding put_results
lookup-put_results j codex claude fs (hc, (hk, _)) = simp (lookup-put, hc, hk)

-- A key other than the two of the review results keeps its value.
lookup-Results :
    (j : String) (args : UpdateArgs) (fs gs : Fields)
    → Ne j ("codexResultSha256" ∷ "claudeResultSha256" ∷ [])
    → Results args fs gs
    → lookup j gs ≡ lookup j fs
lookup-Results j args fs gs ne (cleared _ e) = ap (lookup j) e ∙ lookup-put_results j _ _ fs ne
lookup-Results j args fs gs ne (recorded c k _ _ _ _ e) =
    ap (lookup j) e ∙ lookup-put_results j _ _ fs ne
lookup-Results j args fs gs ne (carried _ _ e) = ap (lookup j) e

-- What a successful update did.
updated-inv :
    (args : UpdateArgs) (disk : Disk) (fs : Fields)
    → updated_fields args disk ≡ ok fs
    → (old : Fields) × (show args.file disk ≡ ok old)
      × (with_results args (with_progress args old) ≡ ok fs)
unfolding updated_fields
updated-inv args disk fs h = >>=-eq-ok (read disk args.file) _ h

module _ (faults : Faults) (args : UpdateArgs) (disk : Disk) (fs : Fields)
    (ran : (update faults args disk).0 ≡ ok fs) where
  -- The state that the update started from, and what became of the review results.
  pub update-Results :
      (old : Fields) × (show args.file disk ≡ ok old) × Results args (with_progress args old) fs
  update-Results =
      let (old, read_old, built) =
        updated-inv args disk fs (update_reads_back faults args disk fs ran).0 in
      (old, read_old, with_results-Results args (with_progress args old) fs built)

  -- If `update` succeeds, the file showed a state before it, and each field other than the
  -- phase, the engine, the round, the two SHAs and the two review results has the value it had
  -- there.
  pub update_keeps :
      (j : String)
      → elem_str j mutable_keys ≡ false
      → (old : Fields) × (show args.file disk ≡ ok old) × (lookup j fs ≡ lookup j old)
  update_keeps j h =
      let (old, read_old, results) = update-Results in
      let (phase, (engine, (round, (base, (head, rest))))) = Ne_of_elem j mutable_keys h in
      (
        old,
        read_old,
        lookup-Results j args _ fs rest results
            ∙ lookup-with_progress j args old (phase, (engine, (round, (base, (head, tt))))),
      )

  -- If `update` succeeds, the new phase is the one that was asked for, whatever happened to the
  -- review results, and the new engine is that of the options in the phase `reviewing` and null
  -- in any other.
  pub update_phase :
      (lookup "phase" fs ≡ some (str args.phase))
      × (lookup "reviewEngine" fs ≡ some (engine_value args))
  unfolding with_progress
  update_phase =
      let (old, read_old, results) = update-Results in
      (
        lookup-Results "phase" args _ fs (refl, (refl, tt)) results
            ∙ simp (
              lookup-with_text "phase" "headSha" args.head_sha _ refl,
              lookup-with_text "phase" "baseSha" args.base_sha _ refl,
              lookup-with_round "phase" args.round _ refl,
              lookup-put,
            ),
        lookup-Results "reviewEngine" args _ fs (refl, (refl, tt)) results
            ∙ simp (
              lookup-with_text "reviewEngine" "headSha" args.head_sha _ refl,
              lookup-with_text "reviewEngine" "baseSha" args.base_sha _ refl,
              lookup-with_round "reviewEngine" args.round _ refl,
              lookup-put,
            ),
      )
