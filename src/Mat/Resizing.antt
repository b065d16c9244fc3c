-- ===== src/Mat/Resizing.antt =====
-- `resize` and `pop_col` of mat.c.
use sleqp.Base.{
  ℕ, zero, suc, ◌+◌, ◌-◌, ◌≤◌, ◌<◌, ◌≡◌, refl, ap, sym, subst, ◌∙◌, true, [], arith, ltb, ◌==◌,
  if◌then◌else◌, ok, Bool-cases, inl, inr,
}
use sleqp.Vec.{Entries}
use sleqp.Vec.Entries.{InRange, InRange-weaken}
use sleqp.Mat.{Mat, column, slice, write, repeat_last, resize, pop_col}
use sleqp.Mat.Columns.{IsValid, column_congr, climbs_to}
use sleqp.Mat.Building.{write_self, write_below}

-- Writes behind `i` do not change what is at `i`.
pub repeat_last_below :
    (rounds from i : ℕ) (cols : ℕ → ℕ) → i < from → repeat_last rounds from cols i ≡ cols i
unfolding repeat_last
repeat_last_below zero from i cols lt = refl
repeat_last_below (suc rounds) from i cols lt =
    repeat_last_below rounds (suc from) i (write cols from (cols (from - 1))) (omega arith)
    ∙ write_below cols from i (cols (from - 1)) lt

-- The loop of `resize` repeats the value in front of it.
repeat_last_lem :
    (rounds from i : ℕ) (cols : ℕ → ℕ)
    → 0 < from
    → from ≤ i
    → i < from + rounds
    → repeat_last rounds from cols i ≡ cols (from - 1)
unfolding repeat_last
repeat_last_lem zero from i cols pos le lt = absurd (omega arith)
repeat_last_lem (suc rounds) from i cols pos le lt =
    let next = write cols from (cols (from - 1)) in
    elim (Bool-cases (from == i)) [
      | inl e ↦
          let q : i ≡ from = ground arith in
          ap (repeat_last rounds (suc from) next) q
          ∙ repeat_last_below rounds (suc from) from next (omega arith)
          ∙ write_self cols from (cols (from - 1))
      | inr ne ↦
          let here : suc from - 1 ≡ from = omega arith in
          repeat_last_lem rounds (suc from) i next (omega arith) (ground arith) (omega arith)
          ∙ ap next here
          ∙ write_self cols from (cols (from - 1))
    ]

module _ {R : Type 0} where
  -- `cols` after more columns were made room for.
  grown_cols : Mat R → ℕ → ℕ → ℕ
  grown_cols m n =
      repeat_last (n - m.num_cols) (m.num_cols + 1)
        (if m.num_cols == 0 then write m.cols 0 0 else m.cols)

  grown_low : (m : Mat R) (n c : ℕ) → IsValid m → c ≤ m.num_cols → grown_cols m n c ≡ m.cols c
  unfolding grown_cols
  grown_low m n c v le =
      repeat_last_below (n - m.num_cols) (m.num_cols + 1) c
        (if m.num_cols == 0 then write m.cols 0 0 else m.cols) (omega arith)
      ∙ elim (Bool-cases (m.num_cols == 0)) [
        | inl e ↦ let q : c ≡ 0 = ground arith in rw (e, q) (write_self m.cols 0 0 ∙ sym v.start)
        | inr ne ↦ rw ne refl
      ]

  grown_high : (m : Mat R) (n c : ℕ) → IsValid m → m.num_cols ≤ c → c ≤ n → grown_cols m n c ≡ m.nnz
  unfolding grown_cols
  grown_high m n c v le le' = elim (Bool-cases (c == m.num_cols)) [
    | inl e ↦
        let q : c ≡ m.num_cols = ground arith in
        ap (grown_cols m n) q ∙ grown_low m n m.num_cols v (omega arith) ∙ v.whole
    | inr ne ↦
        let n0 = m.num_cols in
        let cols = if n0 == 0 then write m.cols 0 0 else m.cols in
        let q : n0 + 1 - 1 ≡ n0 = omega arith in
        let low : cols n0 ≡ m.cols n0 =
          sym (repeat_last_below (n - n0) (n0 + 1) n0 cols (omega arith))
          ∙ grown_low m n n0 v (omega arith) in
        repeat_last_lem (n - n0) (n0 + 1) c cols (omega arith) (ground arith) (omega arith)
        ∙ ap cols q
        ∙ low
        ∙ v.whole
  ]

  -- The columns that a matrix of another width has: those that were there, and empty ones.
  abbrev pub resized_column : Mat R → ℕ → Entries R
  resized_column m c = if ltb c m.num_cols then column m c else []

  grow_lem :
      (m : Mat R) (rows n : ℕ)
      → IsValid m
      → m.num_rows ≤ rows
      → m.num_cols < n
      → let out : Mat R = record m { num_rows = rows; num_cols = n; cols = grown_cols m n } in
        IsValid out × ((c : ℕ) → c < n → column out c ≡ resized_column m c)
  grow_lem m rows n v tall wide =
      let out : Mat R = record m { num_rows = rows; num_cols = n; cols = grown_cols m n } in
      let columns : (c : ℕ) → c < n → column out c ≡ resized_column m c = λ c lt.
        elim (Bool-cases (ltb c m.num_cols)) [
          | inl old ↦
              let below : c < m.num_cols = ground arith in
              rw old (
                column_congr out m c (grown_low m n c v (omega arith))
                  (grown_low m n (suc c) v below) (λ i p q. refl))
          | inr new ↦
              let behind : m.num_cols ≤ c = ground arith in
              let gap : grown_cols m n (suc c) - grown_cols m n c ≡ 0 = omega (
                arith,
                grown_high m n c v behind (omega arith),
                grown_high m n (suc c) v (omega arith) lt,
              ) in
              rw new (ap (slice m.store (grown_cols m n c)) gap)
        ] in
      (
        record {
          start = grown_low m n 0 v (omega arith) ∙ v.start;
          steps = λ c lt. elim (Bool-cases (ltb c m.num_cols)) [
            | inl old ↦
                let below : c < m.num_cols = ground arith in
                omega (
                  arith,
                  grown_low m n c v (omega arith),
                  grown_low m n (suc c) v below,
                  v.steps c below,
                )
            | inr new ↦
                let behind : m.num_cols ≤ c = ground arith in
                omega (
                  arith,
                  grown_high m n c v behind (omega arith),
                  grown_high m n (suc c) v (omega arith) lt,
                )
          ];
          in_range = λ c lt.
              subst (InRange 0 rows) (sym (columns c lt)) (elim (Bool-cases (ltb c m.num_cols)) [
                | inl old ↦ rw old (
                    InRange-weaken 0 0 m.num_rows rows (column m c) (omega arith) tall
                      (v.in_range c (ground arith)))
                | inr new ↦ rw new (omega arith)
              ]);
          whole = grown_high m n n v (omega arith) (omega arith);
          fits = v.fits;
        },
        columns,
      )

  -- `resize` of a valid matrix that is not made lower leaves a valid matrix: the columns that it
  -- still has are as they were, and new ones are empty.
  pub resize_mat :
      (m : Mat R) (rows n : ℕ)
      → IsValid m
      → m.num_rows ≤ rows
      → IsValid (resize m rows n)
        × ((resize m rows n).num_cols ≡ n)
        × ((c : ℕ) → c < n → column (resize m rows n) c ≡ resized_column m c)
  unfolding resize grown_cols
  resize_mat m rows n v tall = elim (Bool-cases (ltb m.num_cols n)) [
    | inl wider ↦ let r = grow_lem m rows n v tall (ground arith) in rw wider (r.0, refl, r.1)
    | inr not_wider ↦
        let le : n ≤ m.num_cols = ground arith in
        let kept : (c : ℕ) → c < n → column m c ≡ resized_column m c =
          λ c lt. let t : ltb c m.num_cols ≡ true = ground arith in rw t refl in
        let rows_fit : (c : ℕ) → c < n → InRange 0 rows (column m c) = λ c lt.
          InRange-weaken 0 0 m.num_rows rows (column m c) (omega arith) tall
            (v.in_range c (omega arith)) in
        elim (Bool-cases (ltb n m.num_cols)) [
          | inl narrower ↦
              let up = climbs_to m.cols m.num_cols n m.num_cols v.steps le (omega arith) in
              rw (not_wider, narrower)
                (
                  record {
                    start = v.start;
                    steps = λ c lt. v.steps c (omega arith);
                    in_range = rows_fit;
                    whole = refl;
                    fits = omega (arith, v.fits, v.whole);
                  },
                  refl,
                  kept,
                )
          | inr same ↦
              let q : n ≡ m.num_cols = ground arith in
              rw (not_wider, same)
                (
                  record {
                    start = v.start;
                    steps = λ c lt. v.steps c (omega arith);
                    in_range = rows_fit;
                    whole = ap m.cols q ∙ v.whole;
                    fits = v.fits;
                  },
                  refl,
                  kept,
                )
        ]
  ]

  -- `pop_col` at the last column of a valid matrix empties it, and keeps the others.
  pub pop_col_lem :
      (m : Mat R) (c : ℕ)
      → IsValid m
      → m.num_cols ≡ suc c
      → (out : Mat R) × (pop_col m c ≡ ok out)
        × IsValid out
        × (column out c ≡ [])
        × ((j : ℕ) → j < c → column out j ≡ column m j)
  unfolding pop_col
  pop_col_lem m c v e =
      let test : ltb c m.num_cols ≡ true = ground arith in
      let out : Mat R = record m {
        cols = write m.cols (suc c) (m.cols c);
        nnz = m.nnz - (m.cols (suc c) - m.cols c);
      } in
      let low : (j : ℕ) → j < suc c → out.cols j ≡ m.cols j =
        λ j lt. write_below m.cols (suc c) j (m.cols c) lt in
      let top : out.cols (suc c) ≡ m.cols c = write_self m.cols (suc c) (m.cols c) in
      let end : m.cols (suc c) ≡ m.nnz = ap m.cols (sym e) ∙ v.whole in
      let step = v.steps c (omega arith) in
      let gap : out.cols (suc c) - out.cols c ≡ 0 = omega (arith, top, low c (omega arith)) in
      let nothing : column out c ≡ [] = ap (slice m.store (out.cols c)) gap in
      let others : (j : ℕ) → j < c → column out j ≡ column m j = λ j lt.
        column_congr out m j (low j (omega arith)) (low (suc j) (omega arith)) (λ i p q. refl) in
      (
        out,
        rw test refl,
        record {
          start = low 0 (omega arith) ∙ v.start;
          steps = λ j lt. elim (Bool-cases (ltb j c)) [
            | inl below ↦
                omega (
                  arith,
                  low j (ground arith),
                  low (suc j) (ground arith),
                  v.steps j (ground arith),
                )
            | inr here ↦
                let q : j ≡ c = ground arith in rw q (omega (arith, top, low c (omega arith)))
          ];
          in_range = λ j lt. elim (Bool-cases (ltb j c)) [
            | inl below ↦
                subst (InRange 0 m.num_rows) (sym (others j (ground arith))) (v.in_range j lt)
            | inr here ↦
                let q : j ≡ c = ground arith in
                subst (InRange 0 m.num_rows) (sym (ap (column out) q ∙ nothing)) (omega arith)
          ];
          whole = ap out.cols e ∙ top ∙ omega arith;
          fits = omega (arith, v.fits);
        },
        nothing,
        others,
      )
