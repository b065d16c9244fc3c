-- ===== src/Mat/Products/Transposed.antt =====
-- `mult_vec_trans` of mat.c against the products of the columns with the vector, and `col`.
use sleqp.Base.{ℕ, zero, suc, ◌+◌, Bool, List, [], ◌∷◌, if◌then◌else◌}
use sleqp.Double.{Double}
use sleqp.Vec as V
use sleqp.Vec.{Entries, Vec, at}
use sleqp.Vec.Entries as E
use sleqp.Vec.Entries.{length-le}
use sleqp.Vec.Dots.{dense_dot}
use sleqp.Mat.{Mat, column}
use sleqp.Mat.Products.{col_dot}

-- The indices from `from` on that pass, in the order of the loop.
count_from : (rounds from : ℕ) → (ℕ → Bool) → ℕ
count_from zero from test = 0
count_from (suc rounds) from test = (if test from then 1 else 0) + count_from rounds (suc from) test

module _ {R : Type 0} ⦃d : Double R⦄ where
  open d use {nought, plus, times}

  -- The product of a column with a vector.
  abbrev pub product : Mat R → Vec R → ℕ → R
  product m vector col =
      dense_dot (λ i. at i vector.entries) (λ i. at i (column m col)) m.num_rows 0 nought

  -- The products of the columns from `col` on.
  products : (rounds col : ℕ) → Mat R → Vec R → List R
  products zero col m vector = []
  products (suc rounds) col m vector =
      col_dot nought vector.entries (column m col) ∷ products rounds (suc col) m vector
