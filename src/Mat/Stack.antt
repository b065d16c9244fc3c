-- ===== src/Mat/Stack.antt =====
-- `sleqp_mat_vstack`.
use sleqp.Base.{
  ℕ, suc, ◌+◌, ◌-◌, ◌≤◌, ◌<◌, ◌≡◌, refl, ap, sym, subst, ◌∙◌, true, [], ◌∷◌, ◌++◌, arith, ◌==◌, ok,
  if◌then◌else◌,
}
use sleqp.Vec.{Entries}
use sleqp.Vec.Entries.{InRange, InRange-le, InRange-weaken}
use sleqp.Mat.{Mat, column, reserve, resize, stack_col, vstack, write}
use sleqp.Mat.Columns.{IsValid, climbs_to, length-column}
use sleqp.Mat.Resizing.{repeat_last_below}
use sleqp.Mat.Building.{
  moved, Built, Built-next, Built-empty, Built-IsValid, push_col_fills, push_entries_fills,
  for_cols_lem,
}

module _ {R : Type 0} where
  pub moved_zero : (es : Entries R) → moved 0 es ≡ es
  moved_zero [] = refl
  moved_zero ((i, x) ∷ es) = let e : 0 + i ≡ i = omega arith in rw (e, moved_zero es)

  pub InRange-moved :
      (offset a b : ℕ) (es : Entries R)
      → InRange a b es
      → InRange (offset + a) (offset + b) (moved offset es)
  InRange-moved offset a b [] h = omega arith
  InRange-moved offset a b ((i, x) ∷ es) h = (
    omega arith,
    omega arith,
    subst (λ k. InRange k (offset + b) (moved offset es)) (omega arith)
        (InRange-moved offset (suc i) b es h.2),
  )

  pub InRange-append :
      (a b c : ℕ) (xs ys : Entries R) → InRange a b xs → InRange b c ys → InRange a c (xs ++ ys)
  InRange-append a b c [] ys h k = InRange-weaken b a c c ys h (omega arith) k
  InRange-append a b c ((i, x) ∷ xs) ys h k =
      (h.0, omega (arith, InRange-le b c ys k), InRange-append (suc i) b c xs ys h.2 k)

  -- A column of the one matrix on top of that of the other.
  abbrev pub stacked : Mat R → Mat R → ℕ → Entries R
  stacked first second c = column first c ++ moved first.num_rows (column second c)

  -- Before column `c` of the result.
  record Stacking (first second : Mat R) (c : ℕ) (m : Mat R) : Type 0 where
    built : Built c (stacked first second) m
    rows : m.num_rows ≡ first.num_rows + second.num_rows
    columns : m.num_cols ≡ first.num_cols
    count : m.nnz ≡ first.cols c + second.cols c
    room : first.nnz + second.nnz ≤ m.nnz_max

  stack_col_lem :
      (first second : Mat R) (c : ℕ) (m : Mat R)
      → IsValid first
      → IsValid second
      → first.num_cols ≡ second.num_cols
      → c < first.num_cols
      → Stacking first second c m
      → (m' : Mat R) × (stack_col first second c m ≡ ok m') × Stacking first second (suc c) m'
  unfolding stack_col
  stack_col_lem first second c m v w e lt s =
      let (m1, runs1, f1, g1) =
        push_col_fills c (stacked first second) m (omega (arith, s.columns)) s.built in
      let step1 = v.steps c lt in
      let step2 = w.steps c (omega arith) in
      let up1 =
        climbs_to first.cols first.num_cols (suc c) first.num_cols v.steps lt (omega arith) in
      let up2 =
        climbs_to second.cols second.num_cols (suc c) second.num_cols w.steps (omega arith)
          (omega arith) in
      let (m2, runs2, f2, g2) =
        push_entries_fills 0 0 first.num_rows c (column first c) (stacked first second) [] m1
          (omega (arith, s.columns, g1.same_cols)) (v.in_range c lt)
          (omega (arith, s.rows, g1.same_rows))
          (omega (
            arith,
            s.count,
            s.room,
            g1.count,
            g1.same_max,
            v.whole,
            w.whole,
            length-column first c,
          ))
          f1 in
      let (m3, runs3, f3, g3) =
        push_entries_fills first.num_rows 0 second.num_rows c (column second c)
          (stacked first second) (moved 0 (column first c)) m2
          (omega (arith, s.columns, g1.same_cols, g2.same_cols)) (w.in_range c (omega arith))
          (omega (arith, s.rows, g1.same_rows, g2.same_rows))
          (omega (
            arith,
            s.count,
            s.room,
            g1.count,
            g1.same_max,
            g2.count,
            g2.same_max,
            v.whole,
            w.whole,
            length-column first c,
            length-column second c,
          ))
          f2 in
      (
        m3,
        rw (runs1, runs2) runs3,
        record {
          built =
              Built-next c (stacked first second) _ m3
                (ap (λ es. es ++ moved first.num_rows (column second c))
                  (moved_zero (column first c)))
                f3;
          rows = omega (arith, s.rows, g1.same_rows, g2.same_rows, g3.same_rows);
          columns = omega (arith, s.columns, g1.same_cols, g2.same_cols, g3.same_cols);
          count = omega (
            arith,
            s.count,
            g1.count,
            g2.count,
            g3.count,
            length-column first c,
            length-column second c,
          );
          room = omega (arith, s.room, g1.same_max, g2.same_max, g3.same_max);
        },
      )

  stacked-InRange :
      (first second : Mat R) (c : ℕ)
      → IsValid first
      → IsValid second
      → first.num_cols ≡ second.num_cols
      → c < first.num_cols
      → InRange 0 (first.num_rows + second.num_rows) (stacked first second c)
  stacked-InRange first second c v w e lt =
      InRange-append 0 first.num_rows (first.num_rows + second.num_rows) (column first c)
        (moved first.num_rows (column second c)) (v.in_range c lt)
        (InRange-weaken (first.num_rows + 0) first.num_rows (first.num_rows + second.num_rows)
          (first.num_rows + second.num_rows) (moved first.num_rows (column second c)) (omega arith)
          (omega arith)
          (InRange-moved first.num_rows 0 second.num_rows (column second c)
            (w.in_range c (omega arith))))

  -- A matrix without entries that is not made narrower.
  resize-empty :
      (m : Mat R) (rows n room : ℕ)
      → m.cols 0 ≡ 0
      → m.nnz ≡ 0
      → m.num_cols ≤ n
      → let r = reserve (resize m rows n) room in
        (r.cols 0 ≡ 0) × (r.nnz ≡ 0) × (r.num_rows ≡ rows) × (r.num_cols ≡ n) × (room ≤ r.nnz_max)
  unfolding reserve resize
  resize-empty m rows n room z e le = ground (
    arith,
    repeat_last_below (n - m.num_cols) (m.num_cols + 1) 0
        (if m.num_cols == 0 then write m.cols 0 0 else m.cols) (omega arith),
    z,
    e,
  )

  -- `vstack` of two valid matrices with equally many columns returns, if the result array starts at
  -- 0 and has no more columns: the result is valid, and each of its columns is that of the first
  -- matrix followed by that of the second, whose rows are moved behind those of the first.
  pub vstack_lem :
      (first second result : Mat R)
      → IsValid first
      → IsValid second
      → first.num_cols ≡ second.num_cols
      → result.cols 0 ≡ 0
      → result.num_cols ≤ first.num_cols
      → (out : Mat R) × (vstack first second result ≡ ok out)
        × IsValid out
        × (out.num_rows ≡ first.num_rows + second.num_rows)
        × (out.num_cols ≡ first.num_cols)
        × ((c : ℕ) → c < first.num_cols → column out c ≡ stacked first second c)
  unfolding vstack
  vstack_lem first second result v w e z le =
      let n = first.num_cols in
      let test : (first.num_cols == second.num_cols) ≡ true = ground arith in
      let m : Mat R =
        reserve (resize (record result { nnz = 0 }) (first.num_rows + second.num_rows) n)
          (first.nnz + second.nnz) in
      let (z0, none_yet, rows, columns, room) =
        resize-empty (record result { nnz = 0 }) (first.num_rows + second.num_rows) n
          (first.nnz + second.nnz) z refl le in
      let (out, runs, s) =
        for_cols_lem (Stacking first second) (stack_col first second) n 0 n m
          (λ c t lt s. stack_col_lem first second c t v w e lt s) (omega arith)
          (record {
            built = Built-empty (stacked first second) m z0 none_yet;
            rows = rows;
            columns = columns;
            count = omega (arith, none_yet, v.start, w.start);
            room = room;
          }) in
      let last : second.cols n ≡ second.nnz = ap second.cols e ∙ w.whole in
      (
        out,
        rw test runs,
        Built-IsValid n (stacked first second) out s.built s.columns
            (omega (arith, s.count, s.room, v.whole, last))
            (λ j lt.
              subst (λ k. InRange 0 k (stacked first second j)) (sym s.rows)
                (stacked-InRange first second j v w e lt)),
        s.rows,
        s.columns,
        s.built.there,
      )
