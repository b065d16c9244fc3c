-- ===== src/Mat/Removal/Whole.antt =====
-- `remove_entries`, `remove_rows` and `remove_cols` of mat.c as a whole.
use sleqp.Base.{
  ℕ, zero, suc, ◌+◌, ◌-◌, ◌≤◌, ◌<◌, ◌≡◌, refl, ap, sym, subst, ◌∙◌, true, false, List, [], ◌∷◌,
  arith, leb, ◌==◌, length, Outcome, ok, ◌>>=◌,
}
use sleqp.Vec.{Entries}
use sleqp.Vec.Entries.{InRange}
use sleqp.Vec.Removal.{IsIncreasing, contains, count_lower, renumber}
use sleqp.Mat.{Mat, column, reserve, clear, push, push_col, push_entries, for_cols}
use sleqp.Mat.Columns.{IsValid, climbs_to, length-column}
use sleqp.Mat.Building.{
  Filling, Grown, Grown-trans, push_col_fills, push_entries_fills, Built-IsValid,
}
use sleqp.Mat.Stack.{moved_zero}
use sleqp.Mat.Removal.{
  keep_rows, each_kept, keep_col, copy_col, remove_rows, remove_entries, remove_cols,
}
use sleqp.Mat.Removal.Rows.{keep_rows_lem, length-renumber, InRange-renumber}
use sleqp.Mat.Removal.Cols.{Fills, Bounded, each_kept_lem}

module _ {R : Type 0} where
  -- A column of the source without the removed rows.
  abbrev pub kept_column : Mat R → List ℕ → ℕ → Entries R
  kept_column source row_indices c = renumber 0 row_indices (column source c)

  keep_col-Fills :
      (source : Mat R) (row_indices : List ℕ) (rows : ℕ)
      → IsValid source
      → IsIncreasing 0 source.num_rows row_indices
      → source.num_rows ≡ rows + length row_indices
      → Fills
          (kept_column source row_indices)
          source.cols
          source.num_cols
          (keep_col source row_indices)
          rows
  unfolding keep_col
  keep_col-Fills source row_indices rows v h e col to t lt wide height room b =
      let es = kept_column source row_indices col in
      let (t1, runs1, f1, g1) = push_col_fills to (column t) t wide b in
      let in_rows : InRange 0 rows es =
        InRange-renumber 0 0 0 source.num_rows rows row_indices (column source col)
          (v.in_range col lt) h (omega arith) (omega arith) (omega arith) in
      let (t2, runs2, f2, g2) =
        push_entries_fills 0 0 rows to es (column t) [] t1 (omega (arith, g1.same_cols)) in_rows
          (omega (arith, g1.same_rows)) (omega (arith, g1.count, g1.same_max)) f1 in
      (
        t2,
        rw runs1 (
            keep_rows_lem to 0 source.num_rows 0 row_indices (column source col) t1
              (v.in_range col lt) h (omega arith)
            ∙ runs2),
        subst (λ ys. Filling to (column t) ys t2) (moved_zero es) f2,
        subst (λ k. Grown k t t2) (omega arith) (Grown-trans 0 (length es) t t1 t2 g1 g2),
      )

  kept_column-Bounded :
      (source : Mat R) (row_indices : List ℕ) (rows : ℕ)
      → IsValid source
      → IsIncreasing 0 source.num_rows row_indices
      → source.num_rows ≡ rows + length row_indices
      → Bounded (kept_column source row_indices) source.cols source.num_cols rows
  kept_column-Bounded source row_indices rows v h e = record {
    grows = λ c lt. omega (
      arith,
      v.steps c lt,
      length-column source c,
      length-renumber 0 row_indices (column source c),
    );
    climbs =
        λ c le. climbs_to source.cols source.num_cols c source.num_cols v.steps le (omega arith);
    in_rows = λ c lt.
        InRange-renumber 0 0 0 source.num_rows rows row_indices (column source c) (v.in_range c lt)
          h (omega arith) (omega arith) (omega arith);
  }

  -- What is left of `source`: the columns that are not removed, in their order, without the rows
  -- that are removed.
  pub record IsLeft (source : Mat R) (col_indices row_indices : List ℕ) (out : Mat R) : Type 0 where
    pub fine : IsValid out
    pub num_cols : source.num_cols ≡ out.num_cols + length col_indices
    pub num_rows : source.num_rows ≡ out.num_rows + length row_indices
    pub columns :
        (c : ℕ)
        → c < source.num_cols
        → contains col_indices c ≡ false
        → column out (c - count_lower col_indices c) ≡ renumber 0 row_indices (column source c)

  -- `remove_entries` of a valid matrix, with increasing indices and a target of the dimensions that
  -- are left, returns, whatever the target held. The result is valid and has the columns that are
  -- not removed, in their order, without the entries in removed rows and with the others renumbered.
  pub remove_entries_mat :
      (source target : Mat R) (col_indices row_indices : List ℕ)
      → IsValid source
      → IsIncreasing 0 source.num_cols col_indices
      → IsIncreasing 0 source.num_rows row_indices
      → source.num_cols ≡ target.num_cols + length col_indices
      → source.num_rows ≡ target.num_rows + length row_indices
      → (out : Mat R) × (remove_entries source target col_indices row_indices ≡ ok out)
        × IsLeft source col_indices row_indices out
  unfolding remove_entries clear reserve
  remove_entries_mat source target col_indices row_indices v hc hr ec er =
      let n = source.num_cols in
      let m : Mat R = clear (reserve target source.nnz) in
      let spec = kept_column source row_indices in
      let wide : m.num_cols ≡ target.num_cols = ground arith in
      let high : m.num_rows ≡ target.num_rows = ground arith in
      let room : source.nnz ≤ m.nnz_max = ground arith in
      let empty : m.nnz ≡ 0 = ground arith in
      let first : m.cols 0 ≡ 0 = ground arith in
      let col_test : (n == m.num_cols + length col_indices) ≡ true = ground arith in
      let row_test : (source.num_rows == m.num_rows + length row_indices) ≡ true = ground arith in
      let rows_left : source.num_rows ≡ m.num_rows + length row_indices = omega arith in
      let (out, runs, k) =
        each_kept_lem spec source.cols n m.num_rows n 0 0 col_indices (keep_col source row_indices)
          m (keep_col-Fills source row_indices m.num_rows v hr rows_left)
          (kept_column-Bounded source row_indices m.num_rows v hr rows_left) (omega arith)
          (record {
            removing = hc;
            behind = omega arith;
            width = omega arith;
            height = refl;
            built = record {
              start = first;
              steps = λ j lt. absurd (omega arith);
              last = first ∙ sym empty;
              there = λ j lt. refl;
            };
            count = omega arith;
            room = omega (arith, v.whole);
            in_rows = λ j lt. absurd (omega arith);
          }) in
      (
        out,
        rw (col_test, row_test) runs,
        record {
          fine =
              Built-IsValid out.num_cols (column out) out k.built refl k.fits
                (λ j lt. subst (λ r. InRange 0 r (column out j)) (sym k.height) (k.in_rows j lt));
          num_cols = omega (arith, k.width);
          num_rows = omega (arith, k.height);
          columns = λ c lt other.
              let place : c - count_lower col_indices c ≡ c - (0 + count_lower col_indices c) =
                omega arith in
              ap (column out) place ∙ k.new c (omega arith) lt other;
        },
      )

  each_kept-for_cols :
      (rounds from : ℕ) (step : ℕ → ℕ → Mat R → Outcome (Mat R)) (m : Mat R)
      → each_kept rounds from 0 [] step m ≡ for_cols rounds from (λ col. step col col) m
  unfolding each_kept for_cols
  each_kept-for_cols zero from step m = refl
  each_kept-for_cols (suc rounds) from step m =
      let e : from - 0 ≡ from = omega arith in
      rw e (ap (λ k. step from from m >>= k) (λ i s. each_kept-for_cols rounds (suc from) step s i))

  -- `remove_rows` is `remove_entries` without columns to remove, errors included.
  pub remove_rows-remove_entries :
      (source target : Mat R) (row_indices : List ℕ)
      → remove_rows source target row_indices ≡ remove_entries source target [] row_indices
  unfolding remove_rows remove_entries
  remove_rows-remove_entries source target row_indices =
      let m : Mat R = clear (reserve target source.nnz) in
      let e : m.num_cols + 0 ≡ m.num_cols = omega arith in
      rw (e, each_kept-for_cols source.num_cols 0 (keep_col source row_indices) m)

  keep_rows-push_entries :
      (col : ℕ) (es : Entries R) (m : Mat R) → keep_rows col es 0 [] m ≡ push_entries 0 col es m
  unfolding keep_rows push_entries
  keep_rows-push_entries col [] m = refl
  keep_rows-push_entries col ((row, x) ∷ es) m =
      let t : leb 0 row ≡ true = ground arith in
      let e : row - 0 ≡ 0 + row = omega arith in
      rw (t, e) (ap (λ k. push m (0 + row) col x >>= k) (λ i s. keep_rows-push_entries col es s i))

  keep_col-copy_col : (source : Mat R) → keep_col source [] ≡ copy_col source
  unfolding keep_col copy_col
  keep_col-copy_col source i col to m =
      push_col m to >>= λ started. keep_rows-push_entries to (column source col) started i

  -- `remove_cols` is `remove_entries` without rows to remove, errors included.
  pub remove_cols-remove_entries :
      (source target : Mat R) (col_indices : List ℕ)
      → remove_cols source target col_indices ≡ remove_entries source target col_indices []
  unfolding remove_cols remove_entries
  remove_cols-remove_entries source target col_indices =
      let m : Mat R = clear (reserve target source.nnz) in
      let e : m.num_rows + 0 ≡ m.num_rows = omega arith in rw (e, keep_col-copy_col source)
