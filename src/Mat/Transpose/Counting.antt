-- ===== src/Mat/Transpose/Counting.antt =====
-- Counting the entries of the rows, and where the rows begin in the transposed matrix of mat.c.
use sleqp.Base.{
  ℕ, zero, suc, ◌+◌, ◌-◌, ◌≤◌, ◌<◌, ◌≡◌, refl, ap, sym, subst, ◌∙◌, true, false, Option, none, some,
  [], ◌∷◌, ◌++◌, arith, ltb, ◌==◌, length, length-append, Bool-cases, inl, inr,
}
use sleqp.Vec.{Entries, at}
use sleqp.Vec.Entries.{InRange, InRange-weaken, InRange-snoc, at-snoc, at_below, at_above}
use sleqp.Mat.{Mat, column, slice, write, overlay}
use sleqp.Mat.Columns.{IsValid}
use sleqp.Mat.Building.{write_self, write_below}
use sleqp.Mat.Transpose.{count_rows, compute_row_sums, sum_up}

pub write_ne {ℓ} :
    {A : Type ℓ} (f : ℕ → A) (k i : ℕ) (x : A) → (i == k) ≡ false → write f k x i ≡ f i
write_ne f k i x e = rw e

module _ {R : Type 0} where
  -- At most one entry, in column `c`.
  abbrev pub one_entry : ℕ → Option R → Entries R
  one_entry c none = []
  one_entry c (some x) = (c, x) ∷ []

  -- Row `r` of the first `c` columns.
  abbrev pub row_upto : Mat R → ℕ → ℕ → Entries R
  row_upto m r zero = []
  row_upto m r (suc c) = row_upto m r c ++ one_entry c (at r (column m c))

  append_none : (es : Entries R) → es ≡ es ++ []
  append_none [] = refl
  append_none (e ∷ es) = ap (λ ys. e ∷ ys) (append_none es)

  at_last :
      (c : ℕ) (es : Entries R) (o : Option R) → InRange 0 c es → at c (es ++ one_entry c o) ≡ o
  at_last c es none h = ap (at c) (sym (append_none es)) ∙ at_above 0 c es c h (omega arith)
  at_last c es (some x) h =
      let t : (c == c) ≡ true = ground arith in at-snoc 0 c es c x c h (omega arith) ∙ rw t refl

  at_front :
      (n c : ℕ) (es : Entries R) (o : Option R)
      → InRange 0 n es
      → (n == c) ≡ false
      → at c (es ++ one_entry n o) ≡ at c es
  at_front n c es none h ne = ap (at c) (sym (append_none es))
  at_front n c es (some x) h ne = at-snoc 0 n es n x c h (omega arith) ∙ rw ne refl

  pub row_upto-InRange : (m : Mat R) (r c : ℕ) → InRange 0 c (row_upto m r c)
  row_upto-InRange m r zero = omega arith
  row_upto-InRange m r (suc c) =
      elim (at r (column m c)) as (λ o. InRange 0 (suc c) (row_upto m r c ++ one_entry c o)) [
        | none ↦ subst (InRange 0 (suc c)) (append_none (row_upto m r c)) (
            InRange-weaken 0 0 c (suc c) (row_upto m r c) (omega arith) (omega arith)
              (row_upto-InRange m r c))
        | some x ↦ InRange-snoc 0 c (row_upto m r c) c x (row_upto-InRange m r c) (omega arith)
      ]

  -- The row has an entry at a column where the column has one at the row.
  pub at-row_upto : (m : Mat R) (r n c : ℕ) → c < n → at c (row_upto m r n) ≡ at r (column m c)
  at-row_upto m r zero c lt = absurd (omega arith)
  at-row_upto m r (suc n) c lt =
      let known = row_upto-InRange m r n in
      elim (Bool-cases (n == c)) [
        | inl e ↦
            let q : n ≡ c = ground arith in
            subst (λ k. at k (row_upto m r (suc n)) ≡ at r (column m k)) q
              (at_last n (row_upto m r n) (at r (column m n)) known)
        | inr ne ↦
            at_front n c (row_upto m r n) (at r (column m n)) known ne
            ∙ at-row_upto m r n c (ground arith)
      ]

  slice-append :
      (f : ℕ → ℕ × R) (k n n' : ℕ) → slice f k (n + n') ≡ slice f k n ++ slice f (k + n) n'
  slice-append f k zero n' =
      let e : 0 + n' ≡ n' = omega arith in let e' : k + 0 ≡ k = omega arith in rw (e, e')
  slice-append f k (suc n) n' =
      let e : suc n + n' ≡ suc (n + n') = omega arith in
      let e' : k + suc n ≡ suc k + n = omega arith in
      rw (e, e') (ap (λ es. f k ∷ es) (slice-append f (suc k) n n'))

  count_rows-append :
      (xs ys : Entries R) (sums : ℕ → ℕ)
      → count_rows (xs ++ ys) sums ≡ count_rows ys (count_rows xs sums)
  unfolding count_rows
  count_rows-append [] ys sums = refl
  count_rows-append ((row, x) ∷ xs) ys sums =
      count_rows-append xs ys (write sums row (suc (sums row)))

  count_rows-column :
      (a b c : ℕ) (es : Entries R) (sums : ℕ → ℕ) (r : ℕ)
      → InRange a b es
      → count_rows es sums r ≡ sums r + length (one_entry c (at r es))
  unfolding count_rows
  count_rows-column a b c [] sums r h = omega arith
  count_rows-column a b c ((row, x) ∷ es) sums r h =
      let rest = count_rows-column (suc row) b c es (write sums row (suc (sums row))) r h.2 in
      elim (Bool-cases (row == r)) [
        | inl e ↦
            let q : row ≡ r = ground arith in
            let t : (r == row) ≡ true = ground arith in
            let missing : at r es ≡ none = at_below (suc row) b es r h.2 (omega arith) in
            let here : write sums row (suc (sums row)) r ≡ suc (sums r) =
              subst (λ k. write sums k (suc (sums k)) r ≡ suc (sums r)) (sym q)
                (write_self sums r (suc (sums r))) in
            let none_left : length (one_entry c (at r es)) ≡ 0 =
              ap (λ o. length (one_entry c o)) missing in
            rw e (omega (arith, rest, here, none_left))
        | inr ne ↦
            let kept = write_ne sums row r (suc (sums row)) (ground arith) in
            rw ne (omega (arith, rest, kept))
      ]

  count_upto :
      (m : Mat R) (c r : ℕ) (sums : ℕ → ℕ)
      → IsValid m
      → c ≤ m.num_cols
      → count_rows (slice m.store 0 (m.cols c)) sums r ≡ sums r + length (row_upto m r c)
  unfolding count_rows
  count_upto m zero r sums v le =
      ap (λ k. count_rows (slice m.store 0 k) sums r) v.start ∙ omega arith
  count_upto m (suc c) r sums v le =
      let step = v.steps c le in
      let n = m.cols (suc c) - m.cols c in
      let e : m.cols (suc c) ≡ m.cols c + n = omega arith in
      let whole : slice m.store 0 (m.cols (suc c)) ≡ slice m.store 0 (m.cols c) ++ column m c =
        ap (slice m.store 0) e
        ∙ slice-append m.store 0 (m.cols c) n
        ∙ ap (λ k. slice m.store 0 (m.cols c) ++ slice m.store k n) (omega arith) in
      let front = count_rows (slice m.store 0 (m.cols c)) sums in
      let last = count_rows-column 0 m.num_rows c (column m c) front r (v.in_range c le) in
      let before = count_upto m c r sums v (omega arith) in
      let sizes = length-append (row_upto m r c) (one_entry c (at r (column m c))) in
      let split : count_rows (slice m.store 0 (m.cols (suc c))) sums r
          ≡ count_rows (column m c) front r =
        ap (λ es. count_rows es sums r) whole
        ∙ ap (λ f. f r) (count_rows-append (slice m.store 0 (m.cols c)) (column m c) sums) in
      omega (arith, split, last, before, sizes)

  -- `compute_row_sums` counts the entries of every row.
  pub compute_row_sums_lem :
      (m : Mat R) (row_sums : ℕ → ℕ) (r : ℕ)
      → IsValid m
      → r < m.num_rows
      → compute_row_sums m row_sums r ≡ length (row_upto m r m.num_cols)
  unfolding compute_row_sums
  compute_row_sums_lem m row_sums r v lt =
      let zeroed = overlay m.num_rows (λ i. 0) row_sums in
      let t : ltb r m.num_rows ≡ true = ground arith in
      let z : zeroed r ≡ 0 = rw t in
      let counted = count_upto m m.num_cols r zeroed v (omega arith) in
      let all : count_rows (slice m.store 0 m.nnz) zeroed r
          ≡ count_rows (slice m.store 0 (m.cols m.num_cols)) zeroed r =
        ap (λ k. count_rows (slice m.store 0 k) zeroed r) (sym v.whole) in
      omega (arith, all, counted, z)

-- What the loop over the rows leaves behind: `cols` sums up the counts, which are reset.
pub record Summed (rounds from : ℕ) (cols sums : ℕ → ℕ) (out : (ℕ → ℕ) × (ℕ → ℕ)) : Type 0 where
  pub kept : (i : ℕ) → i ≤ from → out.0 i ≡ cols i
  pub grown : (i : ℕ) → from ≤ i → i < from + rounds → out.0 (suc i) ≡ out.0 i + sums i
  pub reset : (i : ℕ) → from ≤ i → i < from + rounds → out.1 i ≡ 0
  pub left : (i : ℕ) → i < from → out.1 i ≡ sums i

pub sum_up_lem :
    (rounds from offset : ℕ) (cols sums : ℕ → ℕ)
    → cols from ≡ offset
    → Summed rounds from cols sums (sum_up rounds from offset cols sums)
unfolding sum_up
sum_up_lem zero from offset cols sums e = record {
  kept = λ i le. refl;
  grown = λ i le lt. absurd (omega arith);
  reset = λ i le lt. absurd (omega arith);
  left = λ i lt. refl;
}
sum_up_lem (suc rounds) from offset cols sums e =
    let next = offset + sums from in
    let cols' = write cols (suc from) next in
    let sums' = write sums from 0 in
    let r = sum_up_lem rounds (suc from) next cols' sums' (write_self cols (suc from) next) in
    let low : (i : ℕ) → i ≤ from → cols' i ≡ cols i =
      λ i le. write_below cols (suc from) i next (omega arith) in
    record {
      kept = λ i le. r.kept i (omega arith) ∙ low i le;
      grown = λ i le lt. elim (Bool-cases (i == from)) [
        | inl here ↦
            let q : i ≡ from = ground arith in
            subst
              (λ k.
                (sum_up rounds (suc from) next cols' sums').0 (suc k)
                ≡ (sum_up rounds (suc from) next cols' sums').0 k + sums k)
              (sym q)
              (omega (
                arith,
                r.kept (suc from) (omega arith),
                write_self cols (suc from) next,
                r.kept from (omega arith),
                low from (omega arith),
              ))
        | inr behind ↦
            omega (arith, r.grown i (ground arith) (omega arith), write_ne sums from i 0 behind)
      ];
      reset = λ i le lt. elim (Bool-cases (i == from)) [
        | inl here ↦
            let q : i ≡ from = ground arith in
            ap (sum_up rounds (suc from) next cols' sums').1 q
            ∙ r.left from (omega arith)
            ∙ write_self sums from 0
        | inr behind ↦ r.reset i (ground arith) (omega arith)
      ];
      left = λ i lt. r.left i (omega arith) ∙ write_below sums from i 0 lt;
    }
