-- ===== src/AgentLoop/Batch/Commands/History.antt =====
-- On `_batch_update` of agent-loop-state.py on the disk: each update alone, and any number of
-- them one after the other.
use mathlib.Core.Path.{subst}
use native.Mathlib.Nat.{le_trans}
use codex_platform.Base.{
  ℕ, ◌≤◌, ◌<◌, String, ◌≡◌, ap, sym, ◌∙◌, true, List, some, arith, get_elem?, set,
}
use codex_platform.Base.Outcome.{ok, >>=-eq-ok, ok_inj}
use codex_platform.Base.Value.{Value, obj, Fields}
use codex_platform.AgentLoop.Disk.{Disk, Faults}
use codex_platform.AgentLoop.Disk.Write.{read_state-valid}
use codex_platform.AgentLoop.Disk.Command.{Ended, write_fields_cases, reads_back}
use codex_platform.AgentLoop.RunState.Commands.{Resolve}
use codex_platform.AgentLoop.Batch.Validate.{validate_batch, row_status}
use codex_platform.AgentLoop.Batch.Validate.Rows.{
  validate_batch-Parts, Parts-fields, Fits, Parts-Fits,
}
use codex_platform.AgentLoop.Batch.Commands.{
  read_batch, BatchUpdateArgs, stepped_batch, batch_update, batch_show, new_row, next_cursor,
}
use codex_platform.AgentLoop.Batch.Commands.Step.{
  View, View-cursor, View-rows, Stepped, batch_step-Stepped, Stepped-keeps,
}

module _ (faults : Faults) (resolve : Resolve) (args : BatchUpdateArgs) (disk : Disk) where
  batch_update-Ended :
      Ended faults validate_batch disk args.file true
        (stepped_batch resolve args disk)
        (batch_update faults resolve args disk)
  unfolding batch_update
  batch_update-Ended =
      write_fields_cases faults "batch state" validate_batch args.file true disk
        (stepped_batch resolve args disk)

  -- A successful batch update made one step from the state that the file showed: the row at the
  -- cursor is that of the issue and has the expected status, the new status is one that this
  -- allows, only this row and the cursor change in the list of rows, and the file shows the
  -- printed result.
  pub batch_update-Stepped :
      (gs : Fields)
      → (batch_update faults resolve args disk).0 ≡ ok gs
      → (fs : Fields) × (batch_show args.file disk ≡ ok fs)
        × Stepped resolve args fs gs
        × (batch_show args.file (batch_update faults resolve args disk).1 ≡ ok gs)
  unfolding stepped_batch read_batch
  batch_update-Stepped gs ran =
      let (stepped, valid, shown) =
        reads_back faults "batch state" validate_batch disk args.file true _ _ gs batch_update-Ended
          ran in
      let (fs, read_fs, step) = >>=-eq-ok (read_batch disk args.file) _ stepped in
      (fs, read_fs, batch_step-Stepped resolve args fs gs step, shown)

-- Successful batch updates of one file, one after the other.
pub data BatchUpdates (faults : Faults) (resolve : Resolve) (file : String)
    : Disk → Disk → Type 0 where
  done : {disk : Disk} → BatchUpdates faults resolve file disk disk
  then_update :
      {disk last : Disk} (args : BatchUpdateArgs) (gs : Fields)
      → args.file ≡ file
      → (batch_update faults resolve args disk).0 ≡ ok gs
      → BatchUpdates faults resolve file (batch_update faults resolve args disk).1 last
      → BatchUpdates faults resolve file disk last

-- The file shows a state with this cursor and these rows.
abbrev pub ShowsRows : String → Disk → ℕ → List Value → Type 0
ShowsRows file disk cursor rows =
    (fs : Fields) × (batch_show file disk ≡ ok fs) × View fs cursor rows

settled_rows_stay :
    {faults : Faults} {resolve : Resolve} {file : String} {disk last : Disk} {d : ℕ}
    {ss : List Value} (c : ℕ) (rs : List Value)
    → ShowsRows file disk c rs
    → BatchUpdates faults resolve file disk last
    → ShowsRows file last d ss
    → (c ≤ d) × ((i : ℕ) → i < c → get_elem? ss i ≡ get_elem? rs i)
settled_rows_stay {d} {ss} c rs (fs, shown, before) done (gs, shown', after) =
    let same : gs ≡ fs = ok_inj (sym shown' ∙ shown) in
    let after' : View fs d ss = subst (λ x. View x d ss) same after in
    (
      omega (arith, View-cursor before after'),
      λ i h. ap (λ l. get_elem? l i) (sym (View-rows before after')),
    )
settled_rows_stay {faults} {resolve} {disk} c rs (fs, shown, before)
      (then_update args gs here ran rest) last_shown =
    let (fs', read_fs, step, shown_gs) = batch_update-Stepped faults resolve args disk gs ran in
    let same : fs ≡ fs' =
      ok_inj (sym (subst (λ f. batch_show f disk ≡ ok fs) (sym here) shown) ∙ read_fs) in
    let (le, kept) = Stepped-keeps step (subst (λ x. View x c rs) same before) step.view_after in
    let (le', kept') =
      settled_rows_stay (next_cursor args step.cursor)
        (set step.rows step.cursor (obj (new_row resolve args step.row)))
        (
          gs,
          subst (λ f. batch_show f (batch_update faults resolve args disk).1 ≡ ok gs) here shown_gs,
          step.view_after,
        )
        rest last_shown in
    (le_trans le le', λ i h. kept' i (omega arith) ∙ kept i (λ e. absurd (omega arith)))

-- However many successful batch updates follow a state that the file shows, its cursor does not
-- move back, and each row before the cursor of that state stays what it is.
pub settled_row_stays :
    {faults : Faults} {resolve : Resolve} {file : String} {disk last : Disk} {c d : ℕ}
    {rs ss : List Value} (i : ℕ)
    → ShowsRows file disk c rs
    → BatchUpdates faults resolve file disk last
    → ShowsRows file last d ss
    → i < c
    → (c ≤ d) × (get_elem? ss i ≡ get_elem? rs i)
settled_row_stays {c} {rs} i shown run last_shown h =
    let (le, kept) = settled_rows_stay c rs shown run last_shown in (le, kept i h)

-- Of every batch state that `batch-show` prints, a row before the cursor is finalized or
-- bailed, the row at the cursor is pending or active, and a row after the cursor is pending.
pub shown_row-Fits :
    (file : String) (disk : Disk) (cursor : ℕ) (rows : List Value) (i : ℕ) (v : Value)
    → ShowsRows file disk cursor rows
    → get_elem? rows i ≡ some v
    → (status : Value) × (row_status v ≡ ok status) × Fits cursor i status
unfolding read_batch
shown_row-Fits file disk cursor rows i v (fs, shown, viewed) e =
    let p =
      validate_batch-Parts fs (read_state-valid "batch state" validate_batch disk file fs shown) in
    let (held, items, issues, listed) = Parts-fields fs p in
    let parts_view : View fs p.cursor p.rows = record {
      cursor_held = held;
      issues = items;
      issues_held = issues;
      rows_held = listed;
    } in
    let (status, read, fits) =
      Parts-Fits fs p i v (subst (λ l. get_elem? l i ≡ some v) (View-rows viewed parts_view) e) in
    (status, read, subst (λ c. Fits c i status) (View-cursor parts_view viewed) fits)
