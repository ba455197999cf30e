-- ===== src/Locks/Columns.antt =====
-- Which column a lock mode is read from.
use pgscv.Base.{
  ◌≡◌, refl, ap, ◌∙◌, inl, inr, Option-cases, String, false, not, none, some, List, [], ◌∷◌, arith,
  ◌==◌, string_eq, if◌then◌else◌,
}
use pgscv.Base.External.{Floats}
use pgscv.Model.{NullString, PgResult}
use pgscv.Rows.{Cells, cells_of}
use pgscv.Locks.{LocksStat, no_locks, put, put_cells, put_rows, parse_postgres_locks_stats}

pub data Mode : Type 0 where
  access_share : Mode
  row_share : Mode
  row_exclusive : Mode
  share_update_exclusive : Mode
  share : Mode
  share_row_exclusive : Mode
  exclusive : Mode
  access_exclusive : Mode
  waiting : Mode
  every : Mode

abbrev pub column : Mode → String
column access_share = "access_share_lock"
column row_share = "row_share_lock"
column row_exclusive = "row_exclusive_lock"
column share_update_exclusive = "share_update_exclusive_lock"
column share = "share_lock"
column share_row_exclusive = "share_row_exclusive_lock"
column exclusive = "exclusive_lock"
column access_exclusive = "access_exclusive_lock"
column waiting = "not_granted"
column every = "total"

module _ ⦃F : Floats⦄ where
  abbrev pub locks_in : Mode → LocksStat F → F.Float
  locks_in access_share s = s.access_share_lock
  locks_in row_share s = s.row_share_lock
  locks_in row_exclusive s = s.row_exclusive_lock
  locks_in share_update_exclusive s = s.share_update_exclusive_lock
  locks_in share s = s.share_lock
  locks_in share_row_exclusive s = s.share_row_exclusive_lock
  locks_in exclusive s = s.exclusive_lock
  locks_in access_exclusive s = s.access_exclusive_lock
  locks_in waiting s = s.not_granted
  locks_in every s = s.total

  own_column : (m : Mode) (v : F.Float) (s : LocksStat F) → locks_in m (put (column m) v s) ≡ v
  unfolding put string_eq
  own_column access_share v s = refl
  own_column row_share v s = refl
  own_column row_exclusive v s = refl
  own_column share_update_exclusive v s = refl
  own_column share v s = refl
  own_column share_row_exclusive v s = refl
  own_column exclusive v s = refl
  own_column access_exclusive v s = refl
  own_column waiting v s = refl
  own_column every v s = refl

  other_column :
      (m : Mode) (colname : String) (v : F.Float) (s : LocksStat F)
      → (colname == column m) ≡ false
      → locks_in m (put colname v s) ≡ locks_in m s
  unfolding put
  other_column access_share colname v s h = ground arith
  other_column row_share colname v s h = ground arith
  other_column row_exclusive colname v s h = ground arith
  other_column share_update_exclusive colname v s h = ground arith
  other_column share colname v s h = ground arith
  other_column share_row_exclusive colname v s h = ground arith
  other_column exclusive colname v s h = ground arith
  other_column access_exclusive colname v s h = ground arith
  other_column waiting colname v s h = ground arith
  other_column every colname v s h = ground arith

  locks_in-put :
      (m : Mode) (colname : String) (v : F.Float) (s : LocksStat F)
      → locks_in m (put colname v s) ≡ (if colname == column m then v else locks_in m s)
  locks_in-put m colname v s = elim (string_eq.dec colname (column m)) [
    | yes e ↦ rw e (ground (arith, own_column m v s))
    | no d ↦ ground (arith, other_column m colname v s)
  ]

  -- The number in a cell, or else the old one.
  abbrev pub number_or : NullString → F.Float → F.Float
  number_or cell old =
      if cell.valid then (elim (F.parse_float cell.text) [ none ↦ old | some v ↦ v ]) else old

  -- The last number that the cells of a column have, or else the old one.
  abbrev pub last_number : String → Cells → F.Float → F.Float
  last_number name [] old = old
  last_number name ((colname, cell) ∷ cells) old =
      last_number name cells (if colname == name then number_or cell old else old)

  abbrev pub last_row_number : String → List Cells → F.Float → F.Float
  last_row_number name [] old = old
  last_row_number name (cells ∷ rows) old = last_row_number name rows (last_number name cells old)

  put_cell : String → NullString → LocksStat F → LocksStat F
  put_cell colname cell s =
      if not cell.valid
      then s
      else elim (F.parse_float cell.text) [ none ↦ s | some v ↦ put colname v s ]

  locks_in-put_cell :
      (m : Mode) (colname : String) (cell : NullString) (s : LocksStat F)
      → locks_in m (put_cell colname cell s)
        ≡ (if colname == column m then number_or cell (locks_in m s) else locks_in m s)
  unfolding put_cell
  locks_in-put_cell m colname cell s = elim (Option-cases (F.parse_float cell.text)) [
    | inl e ↦ ground (arith, e)
    | inr (v, e) ↦ ground (arith, e, locks_in-put m colname v s)
  ]

  locks_in-put_cells :
      (m : Mode) (cells : Cells) (s : LocksStat F)
      → locks_in m (put_cells cells s) ≡ last_number (column m) cells (locks_in m s)
  unfolding put_cells put_cell
  locks_in-put_cells m [] s = refl
  locks_in-put_cells m ((colname, cell) ∷ cells) s =
      locks_in-put_cells m cells (put_cell colname cell s)
      ∙ ap (last_number (column m) cells) (locks_in-put_cell m colname cell s)

  locks_in-put_rows :
      (m : Mode) (rows : List Cells) (s : LocksStat F)
      → locks_in m (put_rows rows s) ≡ last_row_number (column m) rows (locks_in m s)
  unfolding put_rows
  locks_in-put_rows m [] s = refl
  locks_in-put_rows m (cells ∷ rows) s =
      locks_in-put_rows m rows (put_cells cells s)
      ∙ ap (last_row_number (column m) rows) (locks_in-put_cells m cells s)

  locks_in-no_locks : (m : Mode) → locks_in m no_locks ≡ F.zero
  locks_in-no_locks access_share = refl
  locks_in-no_locks row_share = refl
  locks_in-no_locks row_exclusive = refl
  locks_in-no_locks share_update_exclusive = refl
  locks_in-no_locks share = refl
  locks_in-no_locks share_row_exclusive = refl
  locks_in-no_locks exclusive = refl
  locks_in-no_locks access_exclusive = refl
  locks_in-no_locks waiting = refl
  locks_in-no_locks every = refl

  -- Each counter is the last number that the rows have in the column of its mode, where NULL and what is
  -- no number are passed over, and zero where there is none.
  pub locks_in-parse_postgres_locks_stats :
      (m : Mode) (r : PgResult)
      → locks_in m (parse_postgres_locks_stats r)
        ≡ last_row_number (column m) (cells_of r.colnames r.rows) F.zero
  unfolding parse_postgres_locks_stats
  locks_in-parse_postgres_locks_stats m r =
      locks_in-put_rows m (cells_of r.colnames r.rows) no_locks
      ∙ ap (last_row_number (column m) (cells_of r.colnames r.rows)) (locks_in-no_locks m)
