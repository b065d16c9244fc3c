-- ===== src/Mat/Checks.antt =====
-- `is_valid`, `copy`, `eq`, `is_lower`, `is_finite` and `scale` of mat.c.
pub mod Order
pub mod Copies
pub mod Equals
use sleqp.Base.{
  ℕ, zero, suc, ◌+◌, ◌-◌, Bool, true, false, not, ◌&&◌, List, [], ◌∷◌, ltb, leb, ◌==◌,
  if◌then◌else◌, all_below, Outcome, ok, ◌>>=◌, ◌>>◌, check,
}
use sleqp.Double.{Double, is_eq, is_zero, is_finite_value}
use sleqp.Vec.{Entries}
use sleqp.Mat.{Mat, column, overlay, reserve, clear}

module _ {R : Type 0} where
  -- The three tests on one column.
  pub col_ok : Mat R → ℕ → Bool
  col_ok m col =
      let n = m.cols (suc col) - m.cols col in
      not (ltb (m.cols (suc col)) (m.cols col))
      && all_below (n - 1)
          (λ i. not (leb (m.store (suc (m.cols col + i))).0 (m.store (m.cols col + i)).0))
      && all_below n (λ i. not (leb m.num_rows (m.store (m.cols col + i)).0))

  pub is_valid : Mat R → Bool
  unfolding col_ok
  is_valid m =
      if ltb m.nnz_max m.nnz
      then false
      else if m.nnz == 0
      then true
      else all_below m.num_cols (col_ok m) && (m.cols m.num_cols == m.nnz)

  pub copy : Mat R → Mat R → Outcome (Mat R)
  unfolding is_valid clear reserve
  copy source target = do
    check (source.num_cols == target.num_cols)
    check (source.num_rows == target.num_rows)
    check (is_valid source)
    let m = reserve (clear target) source.nnz
    let copied = record m {
      store = overlay source.nnz source.store m.store;
      cols = overlay (m.num_cols + 1) source.cols m.cols;
      nnz = source.nnz;
    }
    check (is_valid copied)
    ok copied

  lower_from : ℕ → Entries R → Bool
  lower_from col [] = true
  lower_from col ((row, x) ∷ es) = if ltb row col then false else lower_from col es

  pub is_lower : Mat R → Bool
  unfolding lower_from
  is_lower m = all_below m.num_cols (λ col. lower_from col (column m col))

module _ {R : Type 0} ⦃d : Double R⦄ where
  open d use {nought, times, same}

  pub is_finite : Mat R → Bool
  is_finite m = all_below m.nnz (λ k. is_finite_value (m.store k).1)

  -- The loop of `sleqp_mat_eq` over one column.
  pub eq_column : R → Entries R → Entries R → Bool
  eq_column eps [] [] = true
  eq_column eps [] ((second_row, y) ∷ ys) = elim (not (is_zero y eps)) [
    | true ↦ false
    | false ↦ eq_column eps [] ys
  ]
  eq_column eps ((first_row, x) ∷ xs) [] = elim (not (is_zero x eps)) [
    | true ↦ false
    | false ↦ eq_column eps xs []
  ]
  eq_column eps ((first_row, x) ∷ xs) ((second_row, y) ∷ ys) = elim (first_row == second_row) [
    | true ↦ elim (not (is_eq x y eps)) [ true ↦ false | false ↦ eq_column eps xs ys ]
    | false ↦ elim (not (is_zero x eps)) [
      | true ↦ false
      | false ↦ eq_column eps xs ((second_row, y) ∷ ys)
    ]
  ]

  unfoldable pub eq : Mat R → Mat R → R → Outcome Bool
  unfolding eq_column
  eq first second eps = do
    check (first.num_rows == second.num_rows)
    check (first.num_cols == second.num_cols)
    ok (all_below first.num_cols (λ col. eq_column eps (column first col) (column second col)))

  -- data[index] *= scale, below `nnz`.
  pub scale : Mat R → R → Mat R
  unfolding clear
  scale m factor = if same factor nought then clear m else record m {
    store = overlay m.nnz (λ k. ((m.store k).0, times (m.store k).1 factor)) m.store;
  }
