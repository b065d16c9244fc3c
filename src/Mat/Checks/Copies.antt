-- ===== src/Mat/Checks/Copies.antt =====
-- `copy` and `scale` of mat.c.
use sleqp.Base.{
  ℕ, zero, suc, ◌+◌, ◌-◌, ◌≤◌, ◌<◌, ◌≡◌, refl, ap, sym, subst, ◌∙◌, true, arith, ltb, ◌==◌,
  if◌then◌else◌, ok, [], ◌∷◌, Bool-cases, inl, inr,
}
use sleqp.Double.{Double}
use sleqp.Vec.{scale_all}
use sleqp.Vec.Entries.{InRange}
use sleqp.Mat.{Mat, column, slice, overlay, reserve, clear}
use sleqp.Mat.Columns.{IsValid, column_congr, climbs_to, slice_congr}
use sleqp.Mat.Checks.{copy, scale}
use sleqp.Mat.Checks.Order.{is_valid_of_IsValid}

module _ {R : Type 0} where
  -- A matrix that agrees with a valid one on everything that is read of it.
  pub record SameCells (m m' : Mat R) : Type 0 where
    pub same_rows : m'.num_rows ≡ m.num_rows
    pub same_cols : m'.num_cols ≡ m.num_cols
    pub same_nnz : m'.nnz ≡ m.nnz
    pub cols_agree : (c : ℕ) → c ≤ m.num_cols → m'.cols c ≡ m.cols c
    pub columns : (c : ℕ) → c < m.num_cols → column m' c ≡ column m c

  SameCells-IsValid : (m m' : Mat R) → IsValid m → SameCells m m' → m.nnz ≤ m'.nnz_max → IsValid m'
  SameCells-IsValid m m' v s fits = record {
    start = s.cols_agree 0 (omega arith) ∙ v.start;
    steps = λ c lt.
        let lt' : c < m.num_cols = omega (arith, s.same_cols) in
        omega
          (arith, s.cols_agree c (omega arith), s.cols_agree (suc c) (omega arith), v.steps c lt');
    in_range = λ c lt.
        let lt' : c < m.num_cols = omega (arith, s.same_cols) in
        subst (InRange 0 m'.num_rows) (sym (s.columns c lt'))
          (subst (λ r. InRange 0 r (column m c)) (sym s.same_rows) (v.in_range c lt'));
    whole =
        ap m'.cols s.same_cols ∙ s.cols_agree m.num_cols (omega arith) ∙ v.whole ∙ sym s.same_nnz;
    fits = omega (arith, s.same_nnz);
  }

  pub column_end : (m : Mat R) (c : ℕ) → IsValid m → c < m.num_cols → m.cols (suc c) ≤ m.nnz
  column_end m c v lt =
      omega
        (arith, climbs_to m.cols m.num_cols (suc c) m.num_cols v.steps lt (omega arith), v.whole)

  -- `copy` of a valid matrix into one of its dimensions returns, whatever the target held, and the
  -- result is valid and has the columns of the source.
  pub copy_mat :
      (source target : Mat R)
      → IsValid source
      → source.num_cols ≡ target.num_cols
      → source.num_rows ≡ target.num_rows
      → (out : Mat R) × (copy source target ≡ ok out) × IsValid out × SameCells source out
  unfolding copy clear reserve
  copy_mat source target v ec er =
      let col_test : (source.num_cols == target.num_cols) ≡ true = ground arith in
      let row_test : (source.num_rows == target.num_rows) ≡ true = ground arith in
      let m : Mat R = reserve (clear target) source.nnz in
      let wide : m.num_cols ≡ source.num_cols = ground arith in
      let high : m.num_rows ≡ source.num_rows = ground arith in
      let room : source.nnz ≤ m.nnz_max = ground arith in
      let out : Mat R = record m {
        store = overlay source.nnz source.store m.store;
        cols = overlay (m.num_cols + 1) source.cols m.cols;
        nnz = source.nnz;
      } in
      let low : (c : ℕ) → c ≤ source.num_cols → out.cols c ≡ source.cols c =
        λ c le. let t : ltb c (m.num_cols + 1) ≡ true = ground arith in rw t in
      let s : SameCells source out = record {
        same_rows = high;
        same_cols = wide;
        same_nnz = refl;
        cols_agree = low;
        columns = λ c lt. column_congr out source c (low c (omega arith)) (low (suc c) lt) (λ i p q.
            let t : ltb i source.nnz ≡ true =
              ground (arith, q, low (suc c) lt, column_end source c v lt) in
            rw t);
      } in
      let w : IsValid out = SameCells-IsValid source out v s room in
      (
        out,
        rw (col_test, row_test, is_valid_of_IsValid source v, is_valid_of_IsValid out w) refl,
        w,
        s,
      )

module _ {R : Type 0} ⦃d : Double R⦄ where
  open d use {nought, times, same}

  slice-scale :
      (store : ℕ → ℕ × R) (factor : R) (k n : ℕ)
      → slice (λ i. ((store i).0, times (store i).1 factor)) k n
        ≡ scale_all factor (slice store k n)
  slice-scale store factor k zero = refl
  slice-scale store factor k (suc n) =
      ap (λ es. ((store k).0, times (store k).1 factor) ∷ es) (slice-scale store factor (suc k) n)

  -- `scale` of a valid matrix empties it if the factor is 0, and multiplies every entry of every
  -- column otherwise.
  pub scale_mat :
      (m : Mat R) (factor : R)
      → IsValid m
      → (c : ℕ) → c < m.num_cols
      → column (scale m factor) c
        ≡ (if same factor nought then [] else scale_all factor (column m c))
  unfolding scale clear
  scale_mat m factor v c lt = elim (Bool-cases (same factor nought)) [
    | inl z ↦
        let t : ltb c (m.num_cols + 1) ≡ true = ground arith in
        let t' : ltb (suc c) (m.num_cols + 1) ≡ true = ground arith in rw (z, t, t')
    | inr nz ↦
        let scaled : ℕ → ℕ × R = λ i. ((m.store i).0, times (m.store i).1 factor) in
        let k = m.cols c in
        let n = m.cols (suc c) - m.cols c in
        rw nz (
          slice_congr (overlay m.nnz scaled m.store) scaled k n (λ i p q.
            let t : ltb i m.nnz ≡ true = ground (arith, column_end m c v lt, v.steps c lt) in rw t)
          ∙ slice-scale m.store factor k n)
  ]
