-- ===== src/Mat/Products/ByRows.antt =====
-- `mult_vec` of mat.c against the products of the rows with the vector.
use sleqp.Base.{ℕ, Option, some, [], ◌∷◌}
use sleqp.Double.{Double}
use sleqp.Vec.{Entries, Vec}
use sleqp.Vec.Entries as E
use sleqp.Vec.Dots.{add_product}
use sleqp.Mat.{Mat}

module _ {R : Type 0} ⦃d : Double R⦄ where
  open d use {nought, plus, times}

  -- The entries of the vector one by one, at one row.
  row_sum : (ℕ → Option R) → Entries R → R → R
  row_sum row [] sum = sum
  row_sum row ((col, factor) ∷ es) sum = row_sum row es (add_product sum (some factor) (row col))
