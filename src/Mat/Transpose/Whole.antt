-- ===== src/Mat/Transpose/Whole.antt =====
-- `trans` of mat.c as a whole.
use sleqp.Base.{
  ℕ, zero, suc, ◌+◌, ◌-◌, ◌≤◌, ◌<◌, ◌≡◌, refl, ap, sym, subst, ◌∙◌, true, false, none, some, [],
  ◌∷◌, arith, ◌==◌, if◌then◌else◌, length, length-append, ok, is_some, count_below,
  count_below_step, count_below_none,
}
use sleqp.Vec.{Entries, at}
use sleqp.Vec.Entries.{InRange, at_below}
use sleqp.Mat.{Mat, column, slice, write, clear, reserve, resize}
use sleqp.Mat.Columns.{IsValid, length-column}
use sleqp.Mat.Building.{write_self}
use sleqp.Mat.Checks.Order.{is_valid_of_IsValid}
use sleqp.Mat.Transpose.{trans, fill_transpose, compute_row_sums, sum_up, place_columns}
use sleqp.Mat.Transpose.Counting.{
  one_entry, row_upto, row_upto-InRange, at-row_upto, compute_row_sums_lem, sum_up_lem,
}
use sleqp.Mat.Transpose.Placing.{place_columns_lem}

-- f(0) + … + f(n - 1)
total : ℕ → (ℕ → ℕ) → ℕ
total zero f = 0
total (suc n) f = total n f + f n

total_congr : (n : ℕ) (f g : ℕ → ℕ) → ((r : ℕ) → r < n → f r ≡ g r) → total n f ≡ total n g
unfolding total
total_congr zero f g h = refl
total_congr (suc n) f g h =
    omega (arith, total_congr n f g (λ r lt. h r (omega arith)), h n (omega arith))

total_zero : (n : ℕ) → total n (λ r. 0) ≡ 0
unfolding total
total_zero zero = refl
total_zero (suc n) = omega (arith, total_zero n)

total_add : (n : ℕ) (f g : ℕ → ℕ) → total n (λ r. f r + g r) ≡ total n f + total n g
unfolding total
total_add zero f g = omega arith
total_add (suc n) f g = omega (arith, total_add n f g)

-- What is summed up step by step from 0.
summed-total :
    (T : ℕ → ℕ) (f : ℕ → ℕ) (n : ℕ)
    → T 0 ≡ 0
    → ((r : ℕ) → r < n → T (suc r) ≡ T r + f r)
    → T n ≡ total n f
unfolding total
summed-total T f zero z h = z
summed-total T f (suc n) z h =
    omega (arith, h n (omega arith), summed-total T f n z (λ r lt. h r (omega arith)))

module _ {R : Type 0} where
  total-one_entry :
      (n c : ℕ) (es : Entries R)
      → total n (λ r. length (one_entry c (at r es))) ≡ count_below n (λ r. is_some (at r es))
  unfolding total count_below
  total-one_entry zero c es = refl
  total-one_entry (suc n) c es =
      elim (at n es)
        as (λ o.
          total n (λ r. length (one_entry c (at r es))) + length (one_entry c o)
          ≡ (if is_some o then 1 else 0) + count_below n (λ r. is_some (at r es))) [
            | none ↦ omega (arith, total-one_entry n c es)
            | some x ↦ omega (arith, total-one_entry n c es)
          ]

  -- A column has as many entries as there are rows where it has one.
  count-column :
      (a n : ℕ) (es : Entries R)
      → InRange a n es
      → count_below n (λ r. is_some (at r es)) ≡ length es
  count-column a n [] h = count_below_none n (λ r. false) (λ k lt. refl)
  count-column a n ((s, x) ∷ es) h =
      let missing : at s es ≡ none = at_below (suc s) n es s h.2 (omega arith) in
      let here : (s == s) ≡ true = ground arith in
      count_below_step n s (λ r. is_some (at r es)) (λ r. is_some (at r ((s, x) ∷ es))) h.1
        (ap is_some missing) (rw here refl)
        (λ k lt ne. let t : (s == k) ≡ false = ground arith in rw t refl)
      ∙ (let rest = count-column (suc s) n es h.2 in omega arith)

  -- The rows of the first `c` columns have as many entries as these columns.
  total-row_upto :
      (m : Mat R) (c : ℕ)
      → IsValid m
      → c ≤ m.num_cols
      → total m.num_rows (λ r. length (row_upto m r c)) ≡ m.cols c
  total-row_upto m zero v le = total_zero m.num_rows ∙ sym v.start
  total-row_upto m (suc c) v le =
      let es = column m c in
      let n = m.num_rows in
      let split : total n (λ r. length (row_upto m r (suc c)))
          ≡ total n (λ r. length (row_upto m r c) + length (one_entry c (at r es))) =
        total_congr n (λ r. length (row_upto m r (suc c)))
          (λ r. length (row_upto m r c) + length (one_entry c (at r es)))
          (λ r lt. length-append (row_upto m r c) (one_entry c (at r es))) in
      omega (
        arith,
        split,
        total_add n (λ r. length (row_upto m r c)) (λ r. length (one_entry c (at r es))),
        total-row_upto m c v (omega arith),
        total-one_entry n c es,
        count-column 0 n es (v.in_range c le),
        length-column m c,
        v.steps c le,
      )

  prepared :
      (target : Mat R) (rows cols room : ℕ)
      → let m = resize (reserve (clear target) room) rows cols in
        (m.num_rows ≡ rows) × (m.num_cols ≡ cols) × (room ≤ m.nnz_max)
  unfolding resize reserve clear
  prepared target rows cols room = ground arith

  -- `trans` of a valid matrix returns, whatever the target and the cache held: the result is valid,
  -- has the dimensions swapped, and has at every place the entry of the source at the mirrored place.
  pub trans_lem :
      (source target : Mat R) (row_cache : ℕ → ℕ)
      → IsValid source
      → (out : Mat R) × (trans source target row_cache ≡ ok out)
        × IsValid out
        × (out.num_rows ≡ source.num_cols)
        × (out.num_cols ≡ source.num_rows)
        × ((r c : ℕ)
            → r < source.num_rows
            → c < source.num_cols
            → at c (column out r) ≡ at r (column source c))
  unfolding trans fill_transpose
  trans_lem source target row_cache v =
      let n = source.num_rows in
      let sums = compute_row_sums source row_cache in
      let m = resize (reserve (clear target) source.nnz) source.num_cols n in
      let (high, wide, room) = prepared target source.num_cols n source.nnz in
      let cols = write m.cols 0 0 in
      let summed = sum_up m.num_cols 0 0 cols sums in
      let s = sum_up_lem m.num_cols 0 0 cols sums (write_self m.cols 0 0) in
      let T = summed.0 in
      let start : T 0 ≡ 0 = s.kept 0 (omega arith) ∙ write_self m.cols 0 0 in
      let grown : (r : ℕ) → r < n → T (suc r) ≡ T r + length (row_upto source r source.num_cols) =
        λ r lt. omega (
          arith,
          s.grown r (omega arith) (omega arith),
          compute_row_sums_lem source row_cache r v lt,
        ) in
      let placed = place_columns T source.num_cols 0 source summed.1 m.store in
      let t =
        place_columns_lem T source source.num_cols 0 summed.1 m.store v (λ r lt. sym (grown r lt))
          (omega arith)
          (record {
            counted = λ r lt. s.reset r (omega arith) (omega arith);
            placed = λ r lt. ap (slice m.store (T r)) (s.reset r (omega arith) (omega arith));
          }) in
      let out : Mat R = fill_transpose source target sums in
      let columns : (r : ℕ) → r < n → column out r ≡ row_upto source r source.num_cols = λ r lt.
        let width : T (suc r) - T r ≡ placed.0 r = omega (arith, grown r lt, t.counted r lt) in
        ap (slice placed.1 (T r)) width ∙ t.placed r lt in
      let whole : T n ≡ source.nnz =
        summed-total T (λ r. length (row_upto source r source.num_cols)) n start grown
        ∙ total-row_upto source source.num_cols v (omega arith)
        ∙ v.whole in
      let fine : IsValid out = record {
        start = start;
        steps = λ r lt. omega (arith, grown r (omega arith));
        in_range = λ r lt. subst (InRange 0 m.num_rows) (sym (columns r (omega arith))) (
            subst (λ k. InRange 0 k (row_upto source r source.num_cols)) (sym high)
              (row_upto-InRange source r source.num_cols));
        whole = ap T wide ∙ whole;
        fits = room;
      } in
      (
        out,
        rw (is_valid_of_IsValid out fine) refl,
        fine,
        high,
        wide,
        λ r c lr lc. ap (at c) (columns r lr) ∙ at-row_upto source r source.num_cols c lc,
      )
