-- ===== src/AgentLoop/Batch/Commands/Step.antt =====
-- On `_batch_update` of agent-loop-state.py: one update as a relation between states.
use mathlib.Core.Path.{subst}
use codex_platform.Base.{
  ℕ, ◌≤◌, String, ◌≡◌, refl, ap, sym, ◌∙◌, ◌≢◌, true, not, List, Option, none, some, arith,
  get_elem?, set, get_elem?-set_ne, not-false,
}
use codex_platform.Base.Outcome.{ok, reject, >>=-eq-ok, >>-eq-ok, ok_inj, reject-eq-ok}
use codex_platform.Base.Value.{
  ℤ, pos, Value, int, arr, obj, Items, to_list, of_list, to_list-of_list, Fields, lookup,
  lookup-put, eq_int, eq_str, elem_str,
}
use codex_platform.AgentLoop.Failure.{item}
use codex_platform.AgentLoop.RunState.Commands.{Resolve}
use codex_platform.AgentLoop.Batch.Commands.{
  BatchUpdateArgs, natural, items, row_of, row_for, allowed_from, check_transition, check_child,
  new_row, next_cursor, assigned, batch_step,
}

-- The cursor and the rows that a state holds.
pub record View (fs : Fields) (cursor : ℕ) (rows : List Value) : Type 0 where
  pub cursor_held : lookup "cursor" fs ≡ some (int (pos cursor))
  pub issues : Items
  pub issues_held : lookup "issues" fs ≡ some (arr issues)
  pub rows_held : to_list issues ≡ rows

-- What an update does to a state: the row at the cursor is that of the issue, has the expected
-- status, and moves by a transition that is allowed; a settled row moves the cursor on.
pub record Stepped (resolve : Resolve) (args : BatchUpdateArgs) (fs gs : Fields) : Type 0 where
  pub cursor : ℕ
  pub rows : List Value
  pub row : Fields
  pub number : Value
  pub status : Value
  pub viewed : View fs cursor rows
  pub at_cursor : get_elem? rows cursor ≡ some (obj row)
  pub number_read : lookup "issue" row ≡ some number
  pub own_issue : eq_int number args.issue ≡ true
  pub status_read : lookup "status" row ≡ some status
  pub expected : eq_str status args.expected_status ≡ true
  pub allowed : elem_str args.status (allowed_from args.expected_status) ≡ true
  pub view_after :
      View gs (next_cursor args cursor) (set rows cursor (obj (new_row resolve args row)))

View-assigned :
    (fs : Fields) (rows : List Value) (cursor : ℕ) (row : Fields) (cursor' : ℕ)
    → View (assigned fs rows cursor row cursor') cursor' (set rows cursor (obj row))
unfolding assigned
View-assigned fs rows cursor row cursor' = record {
  cursor_held = simp lookup-put;
  issues = of_list (set rows cursor (obj row));
  issues_held = simp lookup-put;
  rows_held = to_list-of_list (set rows cursor (obj row));
}

item-lookup : (fs : Fields) (key : String) (v : Value) → item fs key ≡ ok v → lookup key fs ≡ some v
item-lookup fs key v h = ground arith

natural-inv : (v : Value) (n : ℕ) → natural v ≡ ok n → v ≡ int (pos n)
unfolding natural
natural-inv (int (pos m)) n h = cc
natural-inv (int _) n h = cc
natural-inv _ n h = cc

items-inv :
    (v : Value) (rows : List Value)
    → items v ≡ ok rows
    → (i : Items) × (v ≡ arr i) × (to_list i ≡ rows)
unfolding items
items-inv (arr i) rows h = (i, refl, cc)
items-inv _ rows h = cc

row_of-inv : (v : Value) (row : Fields) → row_of v ≡ ok row → v ≡ obj row
unfolding row_of
row_of-inv (obj gs) row h = cc
row_of-inv _ row h = cc

row_for-inv :
    (issue : ℤ) (o : Option Value) (row : Fields)
    → row_for issue o ≡ ok row
    → (o ≡ some (obj row))
      × ((number : Value) × (lookup "issue" row ≡ some number) × (eq_int number issue ≡ true))
unfolding row_for
row_for-inv issue none row h = cc
row_for-inv issue (some v) row h =
    let (found, ef, h) = >>=-eq-ok (row_of v) _ h in
    let (number, en, h) = >>=-eq-ok (item found "issue") _ h in
    let (own, last) = >>-eq-ok (reject (not (eq_int number issue)) _) (ok found) h in
    let same = ok_inj last in
    (
      ap some (row_of-inv v found ef ∙ ap obj same),
      (
        number,
        ap (lookup "issue") (sym same) ∙ item-lookup found "issue" number en,
        not-false _ (reject-eq-ok _ _ own),
      ),
    )

transition-inv :
    (args : BatchUpdateArgs) (row : Fields)
    → check_transition args row ≡ ok tt
    → (status : Value) × (lookup "status" row ≡ some status)
      × (eq_str status args.expected_status ≡ true)
      × (elem_str args.status (allowed_from args.expected_status) ≡ true)
unfolding check_transition
transition-inv args row h =
    let (status, es, h) = >>=-eq-ok (item row "status") _ h in
    let (same, legal) = >>-eq-ok (reject (not (eq_str status args.expected_status)) _) _ h in
    (
      status,
      item-lookup row "status" status es,
      not-false _ (reject-eq-ok _ _ same),
      not-false _ (reject-eq-ok _ _ legal),
    )

-- A step that succeeds is a `Stepped`.
pub batch_step-Stepped :
    (resolve : Resolve) (args : BatchUpdateArgs) (fs gs : Fields)
    → batch_step resolve args fs ≡ ok gs
    → Stepped resolve args fs gs
unfolding batch_step
batch_step-Stepped resolve args fs gs h =
    let (cursor_value, ecv, h) = >>=-eq-ok (item fs "cursor") _ h in
    let (cursor, ec, h) = >>=-eq-ok (natural cursor_value) _ h in
    let (issues_value, eiv, h) = >>=-eq-ok (item fs "issues") _ h in
    let (rows, er, h) = >>=-eq-ok (items issues_value) _ h in
    let (row, erow, h) = >>=-eq-ok (row_for args.issue (get_elem? rows cursor)) _ h in
    let (et, h) = >>-eq-ok (check_transition args row) _ h in
    let (_, last) = >>-eq-ok (check_child args (new_row resolve args row)) (ok _) h in
    let (i, ei, il) = items-inv issues_value rows er in
    let (status, es, same, legal) = transition-inv args row et in
    let (here, (number, en, own)) = row_for-inv args.issue (get_elem? rows cursor) row erow in
    record {
      cursor = cursor;
      rows = rows;
      row = row;
      number = number;
      status = status;
      viewed = record {
        cursor_held = item-lookup fs _ _ ecv ∙ ap some (natural-inv cursor_value cursor ec);
        issues = i;
        issues_held = item-lookup fs _ _ eiv ∙ ap some ei;
        rows_held = il;
      };
      at_cursor = here;
      number_read = en;
      own_issue = own;
      status_read = es;
      expected = same;
      allowed = legal;
      view_after =
          subst
            (λ x.
              View x (next_cursor args cursor) (set rows cursor (obj (new_row resolve args row))))
            (ok_inj last)
            (View-assigned fs rows cursor (new_row resolve args row) (next_cursor args cursor));
    }

pub View-cursor : {fs : Fields} {c d : ℕ} {rs ss : List Value} → View fs c rs → View fs d ss → c ≡ d
View-cursor a b = ground (arith, a.cursor_held, b.cursor_held)

pub View-rows : {fs : Fields} {c d : ℕ} {rs ss : List Value} → View fs c rs → View fs d ss → rs ≡ ss
View-rows a b =
    let same : a.issues ≡ b.issues = ground (arith, a.issues_held, b.issues_held) in
    sym a.rows_held ∙ ap to_list same ∙ b.rows_held

le-next_cursor : (args : BatchUpdateArgs) (cursor : ℕ) → cursor ≤ next_cursor args cursor
unfolding next_cursor
le-next_cursor args cursor = ground arith

-- One step moves the cursor by one at most and never back, and keeps every row but the one at the
-- cursor.
pub Stepped-keeps :
    {resolve : Resolve} {args : BatchUpdateArgs} {fs gs : Fields} {c d : ℕ} {rs ss : List Value}
    → Stepped resolve args fs gs
    → View fs c rs
    → View gs d ss
    → (c ≤ d) × ((i : ℕ) → i ≢ c → get_elem? ss i ≡ get_elem? rs i)
Stepped-keeps {resolve} {args} {c} {d} {rs} {ss} s before after =
    let same_c : s.cursor ≡ c = View-cursor s.viewed before in
    let same_d : next_cursor args s.cursor ≡ d = View-cursor s.view_after after in
    let same_rs : s.rows ≡ rs = View-rows s.viewed before in
    let same_ss : set s.rows s.cursor (obj (new_row resolve args s.row)) ≡ ss =
      View-rows s.view_after after in
    (
      omega (arith, le-next_cursor args s.cursor),
      λ i ne.
          ap (λ l. get_elem? l i) (sym same_ss)
          ∙ get_elem?-set_ne s.rows s.cursor i _ (λ e. ne (sym e ∙ same_c))
          ∙ ap (λ l. get_elem? l i) same_rs,
    )
