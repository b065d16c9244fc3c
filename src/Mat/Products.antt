-- ===== src/Mat/Products.antt =====
-- Reading a matrix of mat.c: its values, its columns and its products with vectors.
pub mod ByRows
pub mod RoundTrip
pub mod Transposed
use sleqp.Base.{
  ℕ, zero, suc, ◌+◌, ◌-◌, Bool, true, false, not, Option, none, some, List, [], ◌∷◌, ltb, ◌==◌,
  if◌then◌else◌, count_below, Outcome, ok, ◌>>=◌, ◌>>◌, check,
}
use sleqp.Double.{Double, is_zero}
use sleqp.Vec as V
use sleqp.Vec.{Entries, Vec, at, push_all, or_nought}
use sleqp.Mat.{Mat, column, write, overlay}

module _ {R : Type 0} where
  -- `sleqp_mat_at`: the entry at the first position of the column with that row.
  pub entry_at : Mat R → (row col : ℕ) → Outcome (Option R)
  entry_at m row col = do
    check (ltb row m.num_rows)
    check (ltb col m.num_cols)
    ok (at row (column m col))

  -- `sleqp_mat_col`.
  pub read_col : Mat R → ℕ → Vec R → Outcome (Vec R)
  unfolding V.reserve V.clear push_all
  read_col m col vec = do
    check (m.num_rows == vec.dim)
    check (ltb col m.num_cols)
    push_all 0 (column m col) (V.clear (V.reserve vec (m.cols (suc col) - m.cols col)))

module _ {R : Type 0} ⦃d : Double R⦄ where
  open d use {nought, plus, times}

  -- `sleqp_mat_value_at`.
  pub value_at : Mat R → (row col : ℕ) → Outcome R
  unfolding entry_at
  value_at m row col = do entry ← entry_at m row col; ok (or_nought entry)

  -- for (entry = …) result[rows[entry]] += factor * data[entry];
  pub add_column : R → Entries R → (ℕ → R) → ℕ → R
  add_column factor [] result = result
  add_column factor ((row, x) ∷ es) result =
      add_column factor es (write result row (plus (result row) (times factor x)))

  -- The loop over the entries of the vector.
  pub mult_loop : Mat R → Entries R → (ℕ → R) → ℕ → R
  unfolding add_column
  mult_loop m [] result = result
  mult_loop m ((col, factor) ∷ es) result = mult_loop m es (add_column factor (column m col) result)

  pub mult_vec : Mat R → Vec R → (ℕ → R) → Outcome (ℕ → R)
  unfolding mult_loop
  mult_vec m vector result = do
    check (m.num_cols == vector.dim)
    ok (mult_loop m vector.entries (overlay m.num_rows (λ i. nought) result))

  -- The `while` loop of `mult_vec_trans`, which walks the vector and a column.
  pub col_dot : R → Entries R → Entries R → R
  col_dot sum [] ys = sum
  col_dot sum (e ∷ xs) [] = sum
  col_dot sum ((vec_idx, x) ∷ xs) ((row_idx, y) ∷ ys) = elim (ltb vec_idx row_idx) [
    | true ↦ col_dot sum xs ((row_idx, y) ∷ ys)
    | false ↦ elim (ltb row_idx vec_idx) [
      | true ↦ col_dot sum ((vec_idx, x) ∷ xs) ys
      | false ↦ col_dot (plus sum (times x y)) xs ys
    ]
  ]

  -- The loop of `mult_vec_trans` over the columns.
  pub trans_loop : (rounds col : ℕ) → Mat R → Vec R → R → Vec R → Outcome (Vec R)
  unfolding col_dot
  trans_loop zero col m vector eps result = ok result
  trans_loop (suc rounds) col m vector eps result =
      let sum = col_dot nought vector.entries (column m col) in
      (if not (is_zero sum eps) then V.push result col sum else ok result)
      >>= trans_loop rounds (suc col) m vector eps

  pub mult_vec_trans : Mat R → Vec R → R → Vec R → Outcome (Vec R)
  unfolding trans_loop V.clear V.reserve
  mult_vec_trans m vector eps result = do
    check (m.num_rows == vector.dim)
    check (m.num_cols == result.dim)
    let col_size = count_below m.num_cols (λ col. ltb 0 (m.cols (suc col) - m.cols col))
    trans_loop m.num_cols 0 m vector eps (V.reserve (V.clear result) col_size)
