-- ===== src/Mat/Removal.antt =====
-- `remove_rows`, `remove_cols` and `remove_entries` of mat.c.
pub mod Rows
pub mod Cols
pub mod Whole
use sleqp.Base.{
  ℕ, zero, suc, ◌+◌, ◌-◌, ◌≡◌, true, false, List, [], ◌∷◌, ltb, leb, ◌==◌, length, Outcome, ok,
  ◌>>=◌, ◌>>◌, check,
}
use sleqp.Vec.{Entries}
use sleqp.Mat.{Mat, column, reserve, clear, push, push_col, push_entries, for_cols}

module _ {R : Type 0} where
  -- The loop over the entries of a column, at `row_indices[row_offset..)`. A row that would be moved
  -- below 0 is a fault here.
  pub keep_rows : (col : ℕ) → Entries R → (offset : ℕ) → List ℕ → Mat R → Outcome (Mat R)
  keep_rows col [] offset removed m = ok m
  keep_rows col ((row, x) ∷ es) offset [] m = do
    check (leb offset row)
    next ← push m (row - offset) col x
    keep_rows col es offset [] next
  keep_rows col ((row, x) ∷ es) offset (r ∷ rs) m = elim (ltb r row) [
    | true ↦ keep_rows col ((row, x) ∷ es) (offset + 1) rs m
    | false ↦ elim (r == row) [
      | true ↦ keep_rows col es offset (r ∷ rs) m
      | false ↦
          check (leb offset row)
          >> (push m (row - offset) col x >>= λ next. keep_rows col es offset (r ∷ rs) next)
    ]
  ]

  -- The loop over the columns, at `col_indices[col_offset..)`: `step` gets a column that is kept,
  -- and where it goes.
  pub each_kept :
      (rounds col offset : ℕ) → List ℕ → (ℕ → ℕ → Mat R → Outcome (Mat R)) → Mat R → Outcome (Mat R)
  each_kept zero col offset removed step m = ok m
  each_kept (suc rounds) col offset [] step m =
      step col (col - offset) m >>= each_kept rounds (suc col) offset [] step
  each_kept (suc rounds) col offset (r ∷ rs) step m = elim (leb r col) [
    | true ↦ each_kept rounds (suc col) (suc offset) rs step m
    | false ↦ step col (col - offset) m >>= each_kept rounds (suc col) offset (r ∷ rs) step
  ]

  -- The body of the loop over the columns, with and without rows to remove.
  pub keep_col : Mat R → List ℕ → (col to : ℕ) → Mat R → Outcome (Mat R)
  unfolding keep_rows
  keep_col source row_indices col to m = do
    started ← push_col m to
    keep_rows to (column source col) 0 row_indices started

  pub copy_col : Mat R → (col to : ℕ) → Mat R → Outcome (Mat R)
  copy_col source col to m = do
    started ← push_col m to
    push_entries 0 to (column source col) started

  pub remove_rows : Mat R → Mat R → (row_indices : List ℕ) → Outcome (Mat R)
  unfolding keep_col
  remove_rows source target row_indices = do
    let m = clear (reserve target source.nnz)
    check (source.num_cols == m.num_cols)
    check (source.num_rows == m.num_rows + length row_indices)
    for_cols source.num_cols 0 (λ col. keep_col source row_indices col col) m

  pub remove_entries : Mat R → Mat R → (col_indices row_indices : List ℕ) → Outcome (Mat R)
  unfolding each_kept keep_col
  remove_entries source target col_indices row_indices = do
    let m = clear (reserve target source.nnz)
    check (source.num_cols == m.num_cols + length col_indices)
    check (source.num_rows == m.num_rows + length row_indices)
    each_kept source.num_cols 0 0 col_indices (keep_col source row_indices) m

  pub remove_cols : Mat R → Mat R → (col_indices : List ℕ) → Outcome (Mat R)
  unfolding each_kept copy_col
  remove_cols source target col_indices = do
    let m = clear (reserve target source.nnz)
    check (source.num_cols == m.num_cols + length col_indices)
    check (source.num_rows == m.num_rows)
    each_kept source.num_cols 0 0 col_indices (copy_col source) m
