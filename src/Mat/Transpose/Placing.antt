-- ===== src/Mat/Transpose/Placing.antt =====
-- The loop of mat.c that stores the entries of the transposed matrix.
use sleqp.Base.{
  ℕ, zero, suc, ◌+◌, ◌≤◌, ◌<◌, ◌≡◌, refl, ap, sym, subst, ◌∙◌, true, false, none, some, [], ◌∷◌,
  ◌++◌, arith, ltb, ◌==◌, if◌then◌else◌, length, length-append, Bool-cases, inl, inr,
}
use sleqp.Vec.{Entries, at}
use sleqp.Vec.Entries.{InRange, at_below}
use sleqp.Mat.{Mat, column, slice, write}
use sleqp.Mat.Columns.{IsValid, slice_congr, slice-snoc, climbs_to}
use sleqp.Mat.Building.{write_self}
use sleqp.Mat.Transpose.{place_column, place_columns}
use sleqp.Mat.Transpose.Counting.{one_entry, row_upto, write_ne}

-- The places of the rows do not meet.
apart :
    (T : ℕ → ℕ) (n r s k i : ℕ)
    → ((j : ℕ) → j < n → T j ≤ T (suc j))
    → r < n
    → s < n
    → (s == r) ≡ false
    → T r ≤ i
    → i < T r + k
    → T r + k ≤ T (suc r)
    → (p : ℕ) → T s ≤ p
    → p < T (suc s)
    → (i == p) ≡ false
apart T n r s k i climb lr ls ne ge lt room p ge' lt' = elim (Bool-cases (ltb r s)) [
  | inl before ↦ let up = climbs_to T n (suc r) s climb (ground arith) (omega arith) in ground arith
  | inr behind ↦ let up = climbs_to T n (suc s) r climb (ground arith) (omega arith) in ground arith
]

module _ {R : Type 0} where
  -- What one column adds: its entry at row `r` stands behind those that are placed there.
  record Placed (T : ℕ → ℕ) (n col : ℕ) (es : Entries R) (sums : ℕ → ℕ) (store : ℕ → ℕ × R)
      (out : (ℕ → ℕ) × (ℕ → ℕ × R)) : Type 0 where
    counted : (r : ℕ) → r < n → out.0 r ≡ sums r + length (one_entry col (at r es))
    placed :
        (r : ℕ)
        → r < n
        → slice out.1 (T r) (out.0 r) ≡ slice store (T r) (sums r) ++ one_entry col (at r es)

  append_nothing : (es : Entries R) → es ++ [] ≡ es
  append_nothing [] = refl
  append_nothing (e ∷ es) = ap (λ ys. e ∷ ys) (append_nothing es)

  place_column_lem :
      (T : ℕ → ℕ) (n col a : ℕ) (es : Entries R) (sums : ℕ → ℕ) (store : ℕ → ℕ × R)
      → ((j : ℕ) → j < n → T j ≤ T (suc j))
      → InRange a n es
      → ((r : ℕ) → r < n → T r + sums r + length (one_entry col (at r es)) ≤ T (suc r))
      → Placed T n col es sums store (place_column T col es sums store)
  unfolding place_column
  place_column_lem T n col a [] sums store climb h room = record {
    counted = λ r lt. omega arith;
    placed = λ r lt. sym (append_nothing (slice store (T r) (sums r)));
  }
  place_column_lem T n col a ((s, x) ∷ es) sums store climb h room =
      let sums' = write sums s (suc (sums s)) in
      let p = T s + sums s in
      let store' = write store p (col, x) in
      let missing : at s es ≡ none = at_below (suc s) n es s h.2 (omega arith) in
      let none_left : length (one_entry col (at s es)) ≡ 0 =
        ap (λ o. length (one_entry col o)) missing in
      let here : (s == s) ≡ true = ground arith in
      let mine : T s + sums s + 1 ≤ T (suc s) = let k = room s h.1 in rw here at k in
      let up : sums' s ≡ suc (sums s) = write_self sums s (suc (sums s)) in
      let rest = place_column_lem T n col (suc s) es sums' store' climb h.2 (λ r lt.
        elim (Bool-cases (s == r)) [
          | inl e ↦
              let q : s ≡ r = ground arith in
              subst (λ k. T k + sums' k + length (one_entry col (at k es)) ≤ T (suc k)) q
                (omega (arith, up, none_left, mine))
          | inr ne ↦
              let same = write_ne sums s r (suc (sums s)) (ground arith) in
              let k = room r lt in
              let k' : T r + sums r + length (one_entry col (at r es)) ≤ T (suc r) = rw ne at k in
              omega (arith, same)
        ]) in
      record {
        counted = λ r lt. elim (Bool-cases (s == r)) [
          | inl e ↦
              let q : s ≡ r = ground arith in
              subst
                (λ k.
                  (place_column T col es sums' store').0 k
                  ≡ sums k + length (one_entry col (if s == k then some x else at k es)))
                q (rw here (omega (arith, rest.counted s h.1, up, none_left)))
          | inr ne ↦
              rw ne
                (omega (arith, rest.counted r lt, write_ne sums s r (suc (sums s)) (ground arith)))
        ];
        placed = λ r lt. elim (Bool-cases (s == r)) [
          | inl e ↦
              let q : s ≡ r = ground arith in
              subst
                (λ k.
                  slice (place_column T col es sums' store').1 (T k)
                    ((place_column T col es sums' store').0 k)
                  ≡ slice store (T k) (sums k)
                    ++ one_entry col (if s == k then some x else at k es))
                q
                (rw here (
                  rest.placed s h.1
                  ∙ ap (λ o. slice store' (T s) (sums' s) ++ one_entry col o) missing
                  ∙ append_nothing (slice store' (T s) (sums' s))
                  ∙ ap (slice store' (T s)) up
                  ∙ slice-snoc store' (T s) (sums s)
                  ∙ ap (λ v. slice store' (T s) (sums s) ++ (v ∷ [])) (write_self store p (col, x))
                  ∙ ap (λ ys. ys ++ ((col, x) ∷ []))
                      (slice_congr store' store (T s) (sums s)
                        (λ i ge l. write_ne store p i (col, x) (ground arith)))))
          | inr ne ↦
              let same = write_ne sums s r (suc (sums s)) (ground arith) in
              let k = room r lt in
              let k' : T r + sums r + length (one_entry col (at r es)) ≤ T (suc r) = rw ne at k in
              rw ne (
                rest.placed r lt
                ∙ ap (λ m. slice store' (T r) m ++ one_entry col (at r es)) same
                ∙ ap (λ ys. ys ++ one_entry col (at r es))
                    (slice_congr store' store (T r) (sums r) (λ i ge l.
                      write_ne store p i (col, x)
                        (apart T n r s (sums r) i climb lt h.1 ne ge l (omega arith) p (omega arith)
                          (omega (arith, mine))))))
        ];
      }

  length-row_upto :
      (m : Mat R) (r c rounds : ℕ) → length (row_upto m r c) ≤ length (row_upto m r (c + rounds))
  length-row_upto m r c zero =
      let e : length (row_upto m r (c + 0)) ≡ length (row_upto m r c) =
        let q : c + 0 ≡ c = omega arith in ap (λ k. length (row_upto m r k)) q in
      omega arith
  length-row_upto m r c (suc rounds) =
      let e : length (row_upto m r (c + suc rounds)) ≡ length (row_upto m r (suc (c + rounds))) =
        let q : c + suc rounds ≡ suc (c + rounds) = omega arith in
        ap (λ k. length (row_upto m r k)) q in
      omega (
        arith,
        length-row_upto m r c rounds,
        length-append (row_upto m r (c + rounds))
            (one_entry (c + rounds) (at r (column m (c + rounds)))),
      )

  -- The rows of the first `c` columns are placed.
  pub record Transposing (T : ℕ → ℕ) (m : Mat R) (c : ℕ) (sums : ℕ → ℕ) (store : ℕ → ℕ × R)
      : Type 0 where
    pub counted : (r : ℕ) → r < m.num_rows → sums r ≡ length (row_upto m r c)
    pub placed : (r : ℕ) → r < m.num_rows → slice store (T r) (sums r) ≡ row_upto m r c

  pub place_columns_lem :
      (T : ℕ → ℕ) (m : Mat R) (rounds c : ℕ) (sums : ℕ → ℕ) (store : ℕ → ℕ × R)
      → IsValid m
      → ((j : ℕ) → j < m.num_rows → T j + length (row_upto m j m.num_cols) ≡ T (suc j))
      → c + rounds ≡ m.num_cols
      → Transposing T m c sums store
      → let out = place_columns T rounds c m sums store in Transposing T m m.num_cols out.0 out.1
  unfolding place_columns
  place_columns_lem T m zero c sums store v room e t =
      subst (λ k. Transposing T m k sums store) (omega arith) t
  place_columns_lem T m (suc rounds) c sums store v room e t =
      let lt : c < m.num_cols = omega arith in
      let p =
        place_column_lem T m.num_rows c 0 (column m c) sums store (λ j l. omega (arith, room j l))
          (v.in_range c lt)
          (λ r l.
            let total : length (row_upto m r (suc c + rounds)) ≡ length (row_upto m r m.num_cols) =
              let q : suc c + rounds ≡ m.num_cols = omega arith in
              ap (λ k. length (row_upto m r k)) q in
            omega (
              arith,
              room r l,
              t.counted r l,
              total,
              length-row_upto m r (suc c) rounds,
              length-append (row_upto m r c) (one_entry c (at r (column m c))),
            )) in
      let out = place_column T c (column m c) sums store in
      place_columns_lem T m rounds (suc c) out.0 out.1 v room (omega arith) (record {
        counted = λ r l. omega (
          arith,
          p.counted r l,
          t.counted r l,
          length-append (row_upto m r c) (one_entry c (at r (column m c))),
        );
        placed =
            λ r l. p.placed r l ∙ ap (λ ys. ys ++ one_entry c (at r (column m c))) (t.placed r l);
      })
