-- ===== src/Mat/Removal/Rows.antt =====
-- The loop over the entries of a column of mat.c against the renumbered entries.
use sleqp.Base.{
  ℕ, suc, ◌+◌, ◌-◌, ◌≤◌, ◌<◌, ◌≡◌, refl, ap, sym, subst, ◌∙◌, true, false, List, [], ◌∷◌, arith,
  ltb, leb, ◌==◌, length, ◌>>=◌, Bool-cases, inl, inr,
}
use sleqp.Vec.{Entries}
use sleqp.Vec.Entries.{InRange, InRange-weaken}
use sleqp.Vec.Removal.{
  IsIncreasing, contains, count_lower, renumber, renumber_pass, contains_below, count_lower_below,
  length-le_gap,
}
use sleqp.Mat.{Mat, push, push_entries}
use sleqp.Mat.Removal.{keep_rows}

module _ {R : Type 0} where
  pub length-renumber :
      (offset : ℕ) (rs : List ℕ) (es : Entries R) → length (renumber offset rs es) ≤ length es
  length-renumber offset rs [] = omega arith
  length-renumber offset rs ((i, x) ∷ es) = ground (arith, length-renumber offset rs es)

  -- Without removed rows the entries stay.
  pub renumber_none : (es : Entries R) → renumber 0 [] es ≡ es
  renumber_none [] = refl
  renumber_none ((i, x) ∷ es) = let e : i - (0 + 0) ≡ i = omega arith in rw (e, renumber_none es)

  -- An entry in front of all removed rows that are left.
  renumber_keep :
      (offset row n : ℕ) (x : R) (rs : List ℕ) (es : Entries R)
      → IsIncreasing (suc row) n rs
      → renumber offset rs ((row, x) ∷ es) ≡ (row - offset, x) ∷ renumber offset rs es
  renumber_keep offset row n x rs es h =
      let kept : contains rs row ≡ false = contains_below (suc row) n rs row h (omega arith) in
      let place : row - (offset + count_lower rs row) ≡ row - offset =
        omega (arith, count_lower_below (suc row) n rs row h (omega arith)) in
      rw (kept, place)

  renumber_same :
      (offset row r : ℕ) (x : R) (rs : List ℕ) (es : Entries R)
      → r ≡ row
      → renumber offset (r ∷ rs) ((row, x) ∷ es) ≡ renumber offset (r ∷ rs) es
  renumber_same offset row r x rs es e = let t : (r == row) ≡ true = ground arith in rw t

  keep_pass :
      (col row offset r : ℕ) (x : R) (rs : List ℕ) (es : Entries R) (m : Mat R)
      → r < row
      → keep_rows col ((row, x) ∷ es) offset (r ∷ rs) m
        ≡ keep_rows col ((row, x) ∷ es) (offset + 1) rs m
  unfolding keep_rows
  keep_pass col row offset r x rs es m lt =
      let t : ltb r row ≡ true = ground arith in rw (t, keep_rows)

  keep_skip :
      (col row offset : ℕ) (x : R) (rs : List ℕ) (es : Entries R) (m : Mat R)
      → keep_rows col ((row, x) ∷ es) offset (row ∷ rs) m ≡ keep_rows col es offset (row ∷ rs) m
  unfolding keep_rows
  keep_skip col row offset x rs es m =
      let t : ltb row row ≡ false = ground arith in
      let u : (row == row) ≡ true = ground arith in rw (t, u, keep_rows)

  keep_push :
      (col row offset n : ℕ) (x : R) (rs : List ℕ) (es : Entries R) (m : Mat R)
      → IsIncreasing (suc row) n rs
      → offset ≤ row
      → keep_rows col ((row, x) ∷ es) offset rs m
        ≡ (push m (row - offset) col x >>= λ next. keep_rows col es offset rs next)
  unfolding keep_rows
  keep_push col row offset n x [] es m h le = let t : leb offset row ≡ true = ground arith in rw t
  keep_push col row offset n x (r ∷ rs) es m h le =
      let t : leb offset row ≡ true = ground arith in
      let not_before : ltb r row ≡ false = ground arith in
      let not_here : (r == row) ≡ false = ground arith in
      rw (not_before, not_here, keep_rows) (rw t)

  -- A row that is kept is pushed first, on both sides.
  keep_rows_push :
      (col row offset n : ℕ) (x : R) (rs : List ℕ) (es : Entries R) (m : Mat R)
      → IsIncreasing (suc row) n rs
      → offset ≤ row
      → ((s : Mat R) → keep_rows col es offset rs s ≡ push_entries 0 col (renumber offset rs es) s)
      → keep_rows col ((row, x) ∷ es) offset rs m
        ≡ push_entries 0 col (renumber offset rs ((row, x) ∷ es)) m
  unfolding push_entries
  keep_rows_push col row offset n x rs es m h le known =
      let e : row - offset ≡ 0 + (row - offset) = omega arith in
      keep_push col row offset n x rs es m h le
      ∙ ap (λ k. push m (row - offset) col x >>= k) (λ i s. known s i)
      ∙ ap (λ k. push m k col x >>= push_entries 0 col (renumber offset rs es)) e
      ∙ ap (λ ys. push_entries 0 col ys m) (sym (renumber_keep offset row n x rs es h))

  pub keep_rows_lem :
      (col c n offset : ℕ) (rs : List ℕ) (es : Entries R) (m : Mat R)
      → InRange c n es
      → IsIncreasing c n rs
      → offset ≤ c
      → keep_rows col es offset rs m ≡ push_entries 0 col (renumber offset rs es) m
  unfolding keep_rows push_entries
  keep_rows_lem col c n offset rs [] m h k le = refl
  keep_rows_lem col c n offset [] ((row, x) ∷ es) m h k le =
      keep_rows_push col row offset n x [] es m (omega arith) (omega arith)
        (λ s. keep_rows_lem col (suc row) n offset [] es s h.2 (omega arith) (omega arith))
  keep_rows_lem col c n offset (r ∷ rs) ((row, x) ∷ es) m h k le = elim (Bool-cases (ltb r row)) [
    | inl before ↦
        keep_pass col row offset r x rs es m (ground arith)
        ∙ keep_rows_lem col (suc r) n (offset + 1) rs ((row, x) ∷ es) m (ground arith, h.1, h.2) k.2
            (omega arith)
        ∙ ap (λ ys. push_entries 0 col ys m)
            (renumber_pass offset r n rs ((row, x) ∷ es) (ground arith, h.1, h.2))
    | inr not_before ↦ elim (Bool-cases (r == row)) [
      | inl here ↦
          let q : row ≡ r = ground arith in
          let rest =
            keep_rows_lem col row n offset (r ∷ rs) es m
              (InRange-weaken (suc row) row n n es (omega arith) (omega arith) h.2)
              (omega arith, k.1, k.2) (omega arith) in
          let dropped : renumber offset (r ∷ rs) es ≡ renumber offset (r ∷ rs) ((row, x) ∷ es) =
            sym (renumber_same offset row r x rs es (sym q)) in
          subst
            (λ a.
              keep_rows col ((row, x) ∷ es) offset (a ∷ rs) m ≡ keep_rows col es offset (a ∷ rs) m)
            q (keep_skip col row offset x rs es m)
          ∙ rest
          ∙ ap (λ ys. push_entries 0 col ys m) dropped
      | inr after ↦
          let lt : row < r = ground arith in
          keep_rows_push col row offset n x (r ∷ rs) es m (lt, k.1, k.2) (omega arith)
            (λ s.
              keep_rows_lem col (suc row) n offset (r ∷ rs) es s h.2 (lt, k.1, k.2) (omega arith))
    ]
  ]

  -- Where the entries that are kept lie.
  pub InRange-renumber :
      (offset b c n d : ℕ) (rs : List ℕ) (es : Entries R)
      → InRange c n es
      → IsIncreasing c n rs
      → b + offset ≤ c
      → b ≤ d
      → d + offset + length rs ≡ n
      → InRange b d (renumber offset rs es)
  InRange-renumber offset b c n d rs [] h k le bd e = bd
  InRange-renumber offset b c n d [] ((row, x) ∷ es) h k le bd e =
      subst (InRange b d) (sym (renumber_keep offset row n x [] es (omega arith))) (
        omega arith,
        omega arith,
        InRange-renumber offset (suc (row - offset)) (suc row) n d [] es h.2 (omega arith)
            (omega arith) (omega arith) e,
      )
  InRange-renumber offset b c n d (r ∷ rs) ((row, x) ∷ es) h k le bd e =
      elim (Bool-cases (ltb r row)) [
        | inl before ↦
            let rest : InRange (suc r) n ((row, x) ∷ es) = (ground arith, h.1, h.2) in
            subst (InRange b d) (renumber_pass offset r n rs ((row, x) ∷ es) rest) (
              InRange-renumber (offset + 1) b (suc r) n d rs ((row, x) ∷ es) rest k.2 (omega arith)
                bd (omega arith))
        | inr not_before ↦ elim (Bool-cases (r == row)) [
          | inl here ↦
              subst (InRange b d) (sym (renumber_same offset row r x rs es (ground arith))) (
                InRange-renumber offset b row n d (r ∷ rs) es
                  (InRange-weaken (suc row) row n n es (omega arith) (omega arith) h.2)
                  (ground arith, k.1, k.2) (omega arith) bd e)
          | inr after ↦
              let lt : row < r = ground arith in
              let gap = length-le_gap (suc r) n rs k.2 in
              subst (InRange b d) (sym (renumber_keep offset row n x (r ∷ rs) es (lt, k.1, k.2))) (
                omega arith,
                omega arith,
                InRange-renumber offset (suc (row - offset)) (suc row) n d (r ∷ rs) es h.2
                    (lt, k.1, k.2) (omega arith) (omega arith) e,
              )
        ]
      ]
