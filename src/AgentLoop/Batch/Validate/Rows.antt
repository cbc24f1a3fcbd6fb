-- ===== src/AgentLoop/Batch/Validate/Rows.antt =====
-- On `_validate_batch` of agent-loop-state.py: its parts taken apart, and the places of the rows.
use mathlib.Core.Path.{subst}
use native.Mathlib.Nat.{add-zero}
use codex_platform.Base.{
  ℕ, zero, suc, ◌+◌, ◌<◌, String, ◌≡◌, refl, ap, ◌∙◌, Bool, true, false, not, ◌&&◌, List, [], ◌∷◌,
  Option, none, some, arith, ltb, length, get_elem?, lt→ltb, ◌⊎◌, inl, inr, not-false, Bool-cases,
}
use codex_platform.Base.Outcome.{ok, reject, >>-eq-ok, >>=-eq-ok, reject-eq-ok, ok_inj}
use codex_platform.Base.Value.{
  pos, int, arr, Items, to_list, Value, null, obj, Fields, is_hashable, in_texts, eq_str, lookup,
}
use codex_platform.AgentLoop.Failure.{item, member}
use codex_platform.AgentLoop.Batch.Validate.{
  settled, check_kind, check_texts, check_project, check_allowlist, check_cursor, check_row_count,
  check_row, check_rows, rows_of, as_list, row_fields, row_status, row_matches, child_is_valid,
  check_current, check_current_status, cursor_within, validate_batch,
}

-- The parts of a validated state.
pub record Parts (fs : Fields) : Type 0 where
  pub allowlist : List ℕ
  pub cursor : ℕ
  pub rows : List Value
  pub allowlist_read : check_allowlist fs ≡ ok allowlist
  pub cursor_read : check_cursor fs (length allowlist) ≡ ok cursor
  pub rows_read : check_row_count fs (length allowlist) ≡ ok rows
  pub rows_checked : check_rows cursor 0 allowlist rows ≡ ok tt
  pub current_checked : check_current cursor rows ≡ ok tt

pub validate_batch-Parts : (fs : Fields) → validate_batch fs ≡ ok tt → Parts fs
unfolding validate_batch
validate_batch-Parts fs h =
    let (_, h) = >>-eq-ok (check_kind fs) _ h in
    let (_, h) = >>-eq-ok (check_texts fs) _ h in
    let (_, h) = >>-eq-ok (check_project fs) _ h in
    let (allowlist, ea, h) = >>=-eq-ok (check_allowlist fs) _ h in
    let (cursor, ec, h) = >>=-eq-ok (check_cursor fs (length allowlist)) _ h in
    let (rows, er, h) = >>=-eq-ok (check_row_count fs (length allowlist)) _ h in
    let (checked, current) = >>-eq-ok (check_rows cursor 0 allowlist rows) _ h in
    record {
      allowlist = allowlist;
      cursor = cursor;
      rows = rows;
      allowlist_read = ea;
      cursor_read = ec;
      rows_read = er;
      rows_checked = checked;
      current_checked = current;
    }

rows_of-length :
    (size : ℕ) (o : Option (List Value)) (rows : List Value)
    → rows_of size o ≡ ok rows
    → (o ≡ some rows) × (size ≡ length rows)
unfolding rows_of
rows_of-length size (some vs) rows h = (ground arith, ground arith)
rows_of-length size none rows h = cc

rows-length : (fs : Fields) (p : Parts fs) → length p.allowlist ≡ length p.rows
unfolding check_row_count
rows-length fs p =
    let (v, ev, h) = >>=-eq-ok (item fs "issues") _ p.rows_read in
    (rows_of-length (length p.allowlist) (as_list v) p.rows h).1

some-inj : {a b : Value} → ◌≡◌ {A = Option Value} (some a) (some b) → a ≡ b
some-inj e = cc

nand_left : (a b : Bool) → (a && not b) ≡ false → a ≡ true → b ≡ true
nand_left a b h e = ground arith

-- The status of one row, and what its place says of it.
pub record RowFits (cursor index number : ℕ) (v : Value) : Type 0 where
  pub status : Value
  pub status_read : row_status v ≡ ok status
  pub before : ltb index cursor ≡ true → in_texts status settled ≡ true
  pub after : ltb cursor index ≡ true → eq_str status "pending" ≡ true

row_fields-inv :
    (v : Value) (row : Fields) → row_fields v ≡ ok row → row_status v ≡ item row "status"
unfolding row_fields row_status
row_fields-inv (obj gs) row h = ground arith
row_fields-inv null row h = cc
row_fields-inv _ row h = cc

check_row-RowFits :
    (cursor index number : ℕ) (v : Value)
    → check_row cursor index number v ≡ ok tt
    → RowFits cursor index number v
unfolding check_row
check_row-RowFits cursor index number v h =
    let (row, er, h) = >>=-eq-ok (row_fields v) _ h in
    let (issue, ei, h) = >>=-eq-ok (item row "issue") _ h in
    let (status, es, h) = >>=-eq-ok (item row "status") _ h in
    let (matches, em, h) = >>=-eq-ok (row_matches number issue status) _ h in
    let (_, h) = >>-eq-ok (reject (not matches) _) _ h in
    let (child, eh, h) = >>=-eq-ok (item row "childRunState") _ h in
    let (_, h) = >>-eq-ok (reject (not (child_is_valid child)) _) _ h in
    let (early, late) =
      >>-eq-ok (reject (ltb index cursor && not (in_texts status settled)) _) _ h in
    let not_early = reject-eq-ok (ltb index cursor && not (in_texts status settled)) _ early in
    let not_late = reject-eq-ok (ltb cursor index && not (eq_str status "pending")) _ late in
    record {
      status = status;
      status_read = row_fields-inv v row er ∙ es;
      before = nand_left (ltb index cursor) _ not_early;
      after = nand_left (ltb cursor index) _ not_late;
    }

check_rows-RowFits :
    (cursor index : ℕ) (ns : List ℕ) (vs : List Value)
    → length ns ≡ length vs
    → check_rows cursor index ns vs ≡ ok tt
    → (i : ℕ) (v : Value) → get_elem? vs i ≡ some v
    → (n : ℕ) × RowFits cursor (index + i) n v
unfolding check_rows
check_rows-RowFits cursor index ns [] l h i v e = cc
check_rows-RowFits cursor index [] (w ∷ vs) l h i v e = absurd (omega arith)
check_rows-RowFits cursor index (n ∷ ns) (w ∷ vs) l h zero v e =
    let (first, _) = >>-eq-ok (check_row cursor index n w) _ h in
    (n, rw add-zero (rw (← some-inj e) (check_row-RowFits cursor index n w first)))
check_rows-RowFits cursor index (n ∷ ns) (w ∷ vs) l h (suc i) v e =
    let (_, rest) = >>-eq-ok (check_row cursor index n w) _ h in
    let shifted : suc index + i ≡ index + suc i = omega arith in
    let (m, fits) = check_rows-RowFits cursor (suc index) ns vs (omega arith) rest i v e in
    (m, subst (λ k. RowFits cursor k m v) shifted fits)

order : (i c : ℕ) → (i < c) ⊎ ((i ≡ c) ⊎ (c < i))
order i c = ground arith

-- Each row of a validated batch fits its place.
pub Parts-RowFits :
    (fs : Fields) (p : Parts fs) (i : ℕ) (v : Value)
    → get_elem? p.rows i ≡ some v
    → (n : ℕ) × RowFits p.cursor i n v
Parts-RowFits fs p i v e =
    let (n, fits) =
      check_rows-RowFits p.cursor 0 p.allowlist p.rows (rows-length fs p) p.rows_checked i v e in
    (n, subst (λ k. RowFits p.cursor k n v) (omega arith) fits)

cursor_within-inv : (size : ℕ) (v : Value) (n : ℕ) → cursor_within size v ≡ ok n → v ≡ int (pos n)
unfolding cursor_within
cursor_within-inv size (int (pos m)) n h = ground arith
cursor_within-inv size (int _) n h = cc
cursor_within-inv size _ n h = cc

item-inv : (fs : Fields) (key : String) (v : Value) → item fs key ≡ ok v → lookup key fs ≡ some v
item-inv fs key v h = ground arith

as_list-inv :
    (v : Value) (rows : List Value)
    → as_list v ≡ some rows
    → (i : Items) × (v ≡ arr i) × (to_list i ≡ rows)
as_list-inv (arr i) rows h = (i, refl, cc)
as_list-inv _ rows h = cc

-- The cursor and the rows of the parts are those that the fields hold.
pub Parts-fields :
    (fs : Fields) (p : Parts fs)
    → (lookup "cursor" fs ≡ some (int (pos p.cursor)))
      × (i : Items) × (lookup "issues" fs ≡ some (arr i))
      × (to_list i ≡ p.rows)
unfolding check_cursor check_row_count
Parts-fields fs p =
    let (cv, ec, hc) = >>=-eq-ok (item fs "cursor") _ p.cursor_read in
    let (iv, ei, hi) = >>=-eq-ok (item fs "issues") _ p.rows_read in
    let (i, same, listed) =
      as_list-inv iv p.rows (rows_of-length (length p.allowlist) (as_list iv) p.rows hi).0 in
    (
      item-inv fs "cursor" cv ec ∙ ap some (cursor_within-inv (length p.allowlist) cv p.cursor hc),
      i,
      item-inv fs "issues" iv ei ∙ ap some same,
      listed,
    )

member-inv : (v : Value) (ts : List String) (b : Bool) → member v ts ≡ ok b → in_texts v ts ≡ b
member-inv v ts b h = elim (Bool-cases (is_hashable v)) [
  | inl hashable ↦ ok_inj (rw (member, hashable) at h)
  | inr other ↦ absurd (grind (arith, rw (member, other) at h))
]

check_current-inv :
    (v : Value)
    → check_current_status v ≡ ok tt
    → (s : Value) × (row_status v ≡ ok s) × (in_texts s ("pending" ∷ "active" ∷ []) ≡ true)
unfolding check_current_status
check_current-inv v h =
    let (s, es, h) = >>=-eq-ok (row_status v) _ h in
    let (known, ek, last) = >>=-eq-ok (member s ("pending" ∷ "active" ∷ [])) _ h in
    (s, es, member-inv s _ known ek ∙ not-false _ (reject-eq-ok _ _ last))

-- The status that a row's place allows.
abbrev pub Fits : ℕ → ℕ → Value → Type 0
Fits cursor i status =
    ((i < cursor) × (in_texts status settled ≡ true))
    ⊎ (((i ≡ cursor) × (in_texts status ("pending" ∷ "active" ∷ []) ≡ true))
        ⊎ ((cursor < i) × (eq_str status "pending" ≡ true)))

pub Parts-Fits :
    (fs : Fields) (p : Parts fs) (i : ℕ) (v : Value)
    → get_elem? p.rows i ≡ some v
    → (status : Value) × (row_status v ≡ ok status) × Fits p.cursor i status
unfolding check_current
Parts-Fits fs p i v e =
    let (n, fits) = Parts-RowFits fs p i v e in
    elim (order i p.cursor) [
      | inl early ↦ (fits.status, fits.status_read, inl (early, fits.before (lt→ltb _ _ early)))
      | inr (inl here) ↦
          let (s, read_s, known) = check_current-inv v (
            rw (check_current, subst (λ k. get_elem? p.rows k ≡ some v) here e) at
              p.current_checked) in
          (s, read_s, inr (inl (here, known)))
      | inr (inr late) ↦
          (fits.status, fits.status_read, inr (inr (late, fits.after (lt→ltb _ _ late))))
    ]
