-- ===== src/Mat.antt =====
-- src/main/sparse/mat.c: matrices stored column by column, and how they are built and changed.
pub mod Columns
pub mod Building
pub mod Stack
pub mod Removal
pub mod Resizing
pub mod Products
pub mod Transpose
pub mod Checks
mod Tests
use sleqp.Base.{
  ℕ, zero, suc, ◌+◌, ◌-◌, Bool, List, [], ◌∷◌, ltb, leb, ◌==◌, if◌then◌else◌, length, Outcome, ok,
  ◌>>=◌, ◌>>◌, check,
}
pub use sleqp.Base.{write, overlay}
use sleqp.Double.{Double}
use sleqp.Vec.{Entries, Vec}

-- `SleqpMat`. The arrays `rows` and `data` are one array of pairs, `store`, with `nnz_max` positions;
-- `cols` has `num_cols + 1` positions.
pub record Mat (R : Type 0) : Type 0 where
  pub num_rows : ℕ
  pub num_cols : ℕ
  pub nnz : ℕ
  pub nnz_max : ℕ
  pub cols : ℕ → ℕ
  pub store : ℕ → ℕ × R

-- for (index = from; rounds left; ++index) cols[index] = cols[index - 1];
pub repeat_last : (rounds from : ℕ) → (ℕ → ℕ) → ℕ → ℕ
repeat_last zero from cols = cols
repeat_last (suc rounds) from cols =
    repeat_last rounds (suc from) (write cols from (cols (from - 1)))

module _ {R : Type 0} where
  -- The `n` entries of an array from position `k` on.
  abbrev pub slice : (ℕ → ℕ × R) → ℕ → ℕ → Entries R
  slice store k zero = []
  slice store k (suc n) = store k ∷ slice store (suc k) n

  -- The entries from `cols[col]` to `cols[col + 1]`, which the loops over a column visit.
  abbrev pub column : Mat R → ℕ → Entries R
  column m col = slice m.store (m.cols col) (m.cols (suc col) - m.cols col)

  -- `store` and `cols` are what the arrays hold before anything is written.
  pub create : (num_rows num_cols nnz_max : ℕ) (cols : ℕ → ℕ) (store : ℕ → ℕ × R) → Mat R
  create num_rows num_cols nnz_max cols store = record {
    num_rows = num_rows;
    num_cols = num_cols;
    nnz = 0;
    nnz_max = nnz_max;
    cols = overlay (num_cols + 1) (λ i. 0) cols;
    store = store;
  }

  pub reserve : Mat R → ℕ → Mat R
  reserve m nnz = if leb nnz m.nnz_max then m else record m { nnz_max = nnz }

  pub resize : Mat R → (num_rows num_cols : ℕ) → Mat R
  unfolding repeat_last
  resize m num_rows num_cols =
      if ltb m.num_cols num_cols
      then record m {
        num_rows = num_rows;
        num_cols = num_cols;
        cols =
            repeat_last (num_cols - m.num_cols) (m.num_cols + 1)
              (if m.num_cols == 0 then write m.cols 0 0 else m.cols);
      }
      else if ltb num_cols m.num_cols
      then record m { num_rows = num_rows; num_cols = num_cols; nnz = m.cols num_cols }
      else record m { num_rows = num_rows; num_cols = num_cols }

  pub clear : Mat R → Mat R
  clear m = record m { nnz = 0; cols = overlay (m.num_cols + 1) (λ i. 0) m.cols }

  pub is_quadratic : Mat R → Bool
  is_quadratic m = m.num_rows == m.num_cols

  pub push : Mat R → (row col : ℕ) → R → Outcome (Mat R)
  push m row col value = do
    check (ltb m.nnz m.nnz_max)
    check (ltb row m.num_rows)
    check (ltb col m.num_cols)
    ok (record m {
      store = write m.store m.nnz (row, value);
      cols = write m.cols (suc col) (suc (m.cols (suc col)));
      nnz = suc m.nnz;
    })

  -- rows[nnz + i] = indices[i], data[nnz + i] = data[i], from position `k` on.
  pub write_entries : Entries R → ℕ → (ℕ → ℕ × R) → ℕ → ℕ × R
  write_entries [] k store = store
  write_entries (e ∷ es) k store = write_entries es (suc k) (write store k e)

  -- A column out of range is an access behind `cols`.
  pub push_vec : Mat R → ℕ → Vec R → Outcome (Mat R)
  unfolding write_entries
  push_vec m col vec = do
    check (ltb col m.num_cols)
    check (m.cols col == m.cols (suc col))
    check (vec.dim == m.num_rows)
    check (leb (length vec.entries + m.nnz) m.nnz_max)
    ok (record m {
      store = write_entries vec.entries m.nnz m.store;
      cols = write m.cols (suc col) (m.cols (suc col) + length vec.entries);
      nnz = m.nnz + length vec.entries;
    })

  pub push_col : Mat R → ℕ → Outcome (Mat R)
  push_col m col = do
    check (ltb col m.num_cols)
    ok (record m { cols = write m.cols (suc col) (m.cols col) })

  pub pop_col : Mat R → ℕ → Outcome (Mat R)
  pop_col m col = do
    check (ltb col m.num_cols)
    ok (record m {
      cols = write m.cols (suc col) (m.cols col);
      nnz = m.nnz - (m.cols (suc col) - m.cols col);
    })

  -- for (col = from; rounds left; ++col) step(col)
  pub for_cols : (rounds from : ℕ) → (ℕ → Mat R → Outcome (Mat R)) → Mat R → Outcome (Mat R)
  for_cols zero from step m = ok m
  for_cols (suc rounds) from step m = step from m >>= for_cols rounds (suc from) step

  -- The loops of `vstack` over one column: every entry is pushed, `offset` rows further down.
  pub push_entries : (offset col : ℕ) → Entries R → Mat R → Outcome (Mat R)
  unfolding push
  push_entries offset col [] m = ok m
  push_entries offset col ((row, x) ∷ es) m =
      push m (offset + row) col x >>= push_entries offset col es

  pub stack_col : Mat R → Mat R → ℕ → Mat R → Outcome (Mat R)
  unfolding push_col push_entries
  stack_col first second col m = do
    started ← push_col m col
    half ← push_entries 0 col (column first col) started
    push_entries first.num_rows col (column second col) half

  pub vstack : Mat R → Mat R → Mat R → Outcome (Mat R)
  unfolding resize reserve for_cols stack_col
  vstack first second result = do
    check (first.num_cols == second.num_cols)
    let emptied = record result { nnz = 0 }
    let resized = resize emptied (first.num_rows + second.num_rows) first.num_cols
    for_cols first.num_cols 0 (stack_col first second) (reserve resized (first.nnz + second.nnz))
