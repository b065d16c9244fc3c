-- ===== src/Mat/Transpose.antt =====
-- `sleqp_mat_trans`.
pub mod Counting
pub mod Placing
pub mod Whole
use sleqp.Base.{ℕ, zero, suc, ◌+◌, List, [], ◌∷◌, Outcome, ok, ◌>>=◌, ◌>>◌, check}
use sleqp.Vec.{Entries}
use sleqp.Mat.{Mat, column, slice, write, overlay, clear, reserve, resize}
use sleqp.Mat.Checks.{is_valid}

-- for (j = from; …; ++j) { offset += row_sums[j]; cols[j + 1] = offset; row_sums[j] = 0; }
pub sum_up : (rounds from offset : ℕ) (cols row_sums : ℕ → ℕ) → (ℕ → ℕ) × (ℕ → ℕ)
sum_up zero from offset cols row_sums = (cols, row_sums)
sum_up (suc rounds) from offset cols row_sums =
    let next = offset + row_sums from in
    sum_up rounds (suc from) next (write cols (suc from) next) (write row_sums from 0)

module _ {R : Type 0} where
  -- ++(row_sums[rows[k]]);
  pub count_rows : Entries R → (ℕ → ℕ) → ℕ → ℕ
  count_rows [] row_sums = row_sums
  count_rows ((row, x) ∷ es) row_sums = count_rows es (write row_sums row (suc (row_sums row)))

  pub compute_row_sums : Mat R → (ℕ → ℕ) → ℕ → ℕ
  unfolding count_rows
  compute_row_sums m row_sums =
      count_rows (slice m.store 0 m.nnz) (overlay m.num_rows (λ i. 0) row_sums)

  -- The entries of a column, each to the next free position of its row.
  pub place_column :
      (target_cols : ℕ → ℕ) (col : ℕ) → Entries R → (ℕ → ℕ) → (ℕ → ℕ × R) → (ℕ → ℕ) × (ℕ → ℕ × R)
  place_column target_cols col [] row_sums store = (row_sums, store)
  place_column target_cols col ((row, x) ∷ es) row_sums store =
      place_column target_cols col es (write row_sums row (suc (row_sums row)))
        (write store (target_cols row + row_sums row) (col, x))

  pub place_columns :
      (target_cols : ℕ → ℕ) (rounds col : ℕ) → Mat R → (ℕ → ℕ) → (ℕ → ℕ × R) → (ℕ → ℕ) × (ℕ → ℕ × R)
  unfolding place_column
  place_columns target_cols zero col source row_sums store = (row_sums, store)
  place_columns target_cols (suc rounds) col source row_sums store =
      let placed = place_column target_cols col (column source col) row_sums store in
      place_columns target_cols rounds (suc col) source placed.0 placed.1

  pub fill_transpose : Mat R → Mat R → (ℕ → ℕ) → Mat R
  unfolding sum_up place_columns clear reserve resize
  fill_transpose source target row_sums =
      let m = resize (reserve (clear target) source.nnz) source.num_cols source.num_rows in
      let summed = sum_up m.num_cols 0 0 (write m.cols 0 0) row_sums in
      let placed = place_columns summed.0 source.num_cols 0 source summed.1 m.store in
      record m { cols = summed.0; store = placed.1; nnz = source.nnz }

  pub trans : Mat R → Mat R → (ℕ → ℕ) → Outcome (Mat R)
  unfolding compute_row_sums fill_transpose
  trans source target row_cache = do
    let transposed = fill_transpose source target (compute_row_sums source row_cache)
    check (is_valid transposed)
    ok transposed
