-- ===== src/Mat/Checks/Order.antt =====
-- `is_valid` and `is_lower` of mat.c.
use sleqp.Base.{
  ℕ, zero, suc, ◌+◌, ◌-◌, ◌≤◌, ◌<◌, ◌≡◌, ◌↔◌, ◌⊎◌, inl, inr, refl, ap, Bool, true, some, false, not,
  none, [], ◌∷◌, arith, ltb, leb, ◌==◌, if◌then◌else◌, all_below, all_below_intro, all_below_elim,
  Bool-cases,
}
use sleqp.Vec.{Entries, at}
use sleqp.Vec.Entries.{InRange}
use sleqp.Mat.{Mat, slice, column}
use sleqp.Mat.Columns.{IsValid}
use sleqp.Mat.Checks.{col_ok, is_valid, lower_from, is_lower}

module _ {R : Type 0} where
  -- The rows of a stretch of the array, as the loops of `is_valid` read them.
  slice-InRange :
      (store : ℕ → ℕ × R) (k n a b : ℕ)
      → a ≤ b
      → (0 < n → a ≤ (store k).0)
      → ((i : ℕ) → suc i < n → (store (k + i)).0 < (store (suc (k + i))).0)
      → ((i : ℕ) → i < n → (store (k + i)).0 < b)
      → InRange a b (slice store k n)
  slice-InRange store k zero a b le first climb below = le
  slice-InRange store k (suc n) a b le first climb below =
      let at_k : (store (k + 0)).0 ≡ (store k).0 = ap (λ i. (store i).0) (omega arith) in
      let after_k : (store (suc (k + 0))).0 ≡ (store (suc k)).0 =
        ap (λ i. (store i).0) (omega arith) in
      let top : (store k).0 < b = omega (arith, below 0 (omega arith)) in
      (
        first (omega arith),
        top,
        slice-InRange store (suc k) n (suc (store k).0) b top
            (λ more. omega (arith, climb 0 (omega arith)))
            (λ i lt.
              let e : (store (k + suc i)).0 ≡ (store (suc k + i)).0 =
                ap (λ j. (store j).0) (omega arith) in
              let e' : (store (suc (k + suc i))).0 ≡ (store (suc (suc k + i))).0 =
                ap (λ j. (store j).0) (omega arith) in
              omega (arith, climb (suc i) (omega arith)))
            (λ i lt.
              let e : (store (k + suc i)).0 ≡ (store (suc k + i)).0 =
                ap (λ j. (store j).0) (omega arith) in
              omega (arith, below (suc i) (omega arith))),
      )

  InRange-slice_below :
      (store : ℕ → ℕ × R) (k n a b i : ℕ)
      → InRange a b (slice store k n)
      → i < n
      → (a ≤ (store (k + i)).0) × ((store (k + i)).0 < b)
  InRange-slice_below store k zero a b i h lt = absurd (omega arith)
  InRange-slice_below store k (suc n) a b zero h lt =
      let e : (store (k + 0)).0 ≡ (store k).0 = ap (λ j. (store j).0) (omega arith) in
      (omega (arith, h.0), omega (arith, h.1))
  InRange-slice_below store k (suc n) a b (suc i) h lt =
      let e : (store (k + suc i)).0 ≡ (store (suc k + i)).0 = ap (λ j. (store j).0) (omega arith) in
      let rest = InRange-slice_below store (suc k) n (suc (store k).0) b i h.2 (omega arith) in
      (omega (arith, h.0, rest.0), omega (arith, rest.1))

  InRange-slice_climb :
      (store : ℕ → ℕ × R) (k n a b i : ℕ)
      → InRange a b (slice store k n)
      → suc i < n
      → (store (k + i)).0 < (store (suc (k + i))).0
  InRange-slice_climb store k zero a b i h lt = absurd (omega arith)
  InRange-slice_climb store k (suc n) a b zero h lt =
      let e : (store (k + 0)).0 ≡ (store k).0 = ap (λ j. (store j).0) (omega arith) in
      let e' : (store (suc (k + 0))).0 ≡ (store (suc k + 0)).0 =
        ap (λ j. (store j).0) (omega arith) in
      let rest = InRange-slice_below store (suc k) n (suc (store k).0) b 0 h.2 (omega arith) in
      omega (arith, rest.0)
  InRange-slice_climb store k (suc n) a b (suc i) h lt =
      let e : (store (k + suc i)).0 ≡ (store (suc k + i)).0 = ap (λ j. (store j).0) (omega arith) in
      let e' : (store (suc (k + suc i))).0 ≡ (store (suc (suc k + i))).0 =
        ap (λ j. (store j).0) (omega arith) in
      let rest = InRange-slice_climb store (suc k) n (suc (store k).0) b i h.2 (omega arith) in
      omega (arith, rest)

  -- What one column must be.
  abbrev pub IsColumn : Mat R → ℕ → Type 0
  IsColumn m c = (m.cols c ≤ m.cols (suc c)) × InRange 0 m.num_rows (column m c)

  col_ok_iff : (m : Mat R) (c : ℕ) → (col_ok m c ≡ true) ↔ IsColumn m c
  unfolding col_ok
  col_ok_iff m c =
      let n = m.cols (suc c) - m.cols c in
      let k = m.cols c in
      let climb : ℕ → Bool = λ i. not (leb (m.store (suc (k + i))).0 (m.store (k + i)).0) in
      let below : ℕ → Bool = λ i. not (leb m.num_rows (m.store (k + i)).0) in
      (
        λ h.
            let steps : m.cols c ≤ m.cols (suc c) = ground arith in
            let h1 : all_below (n - 1) climb ≡ true = ground arith in
            let h2 : all_below n below ≡ true = ground arith in
            (
              steps,
              slice-InRange m.store k n 0 m.num_rows (omega arith) (λ more. omega arith)
                  (λ i lt. let t = all_below_elim (n - 1) climb i h1 (omega arith) in ground arith)
                  (λ i lt. let t = all_below_elim n below i h2 lt in ground arith),
            ),
        λ (steps, h).
            let t : ltb (m.cols (suc c)) (m.cols c) ≡ false = ground arith in
            let h1 : all_below (n - 1) climb ≡ true = all_below_intro (n - 1) climb (λ i lt.
              let r = InRange-slice_climb m.store k n 0 m.num_rows i h (omega arith) in
              ground arith) in
            let h2 : all_below n below ≡ true = all_below_intro n below (λ i lt.
              let r = InRange-slice_below m.store k n 0 m.num_rows i h lt in ground (arith, r.1)) in
            rw (t, h1, h2) refl,
      )

  -- `is_valid` answers `true` exactly if the entries fit and either there is none or the columns lie
  -- one behind the other, end at the number of entries, and the rows of each increase strictly and
  -- exist. Of a matrix without entries the columns are not looked at.
  pub is_valid_mat_iff :
      (m : Mat R)
      → (is_valid m ≡ true) ↔ (
          (m.nnz ≤ m.nnz_max)
          × ((m.nnz ≡ 0)
              ⊎ (((c : ℕ) → c < m.num_cols → IsColumn m c) × (m.cols m.num_cols ≡ m.nnz))))
  unfolding is_valid
  is_valid_mat_iff m = elim (Bool-cases (ltb m.nnz_max m.nnz)) [
    | inl over ↦ rw over (λ h. absurd (ground arith), λ (fits, h). absurd (ground arith))
    | inr fits ↦ elim (Bool-cases (m.nnz == 0)) [
      | inl empty ↦ rw (fits, empty) (λ h. (ground arith, inl (ground arith)), λ h. refl)
      | inr some_entry ↦
          rw (fits, some_entry)
            (
              λ h.
                  let all : all_below m.num_cols (col_ok m) ≡ true = ground arith in
                  (
                    ground arith,
                    inr (
                      λ c lt. (col_ok_iff m c).0 (all_below_elim m.num_cols (col_ok m) c all lt),
                      ground arith,
                    ),
                  ),
              λ (fits', h). elim h [
                | inl none_yet ↦ absurd (ground arith)
                | inr (columns, whole) ↦
                    let all : all_below m.num_cols (col_ok m) ≡ true =
                      all_below_intro m.num_cols (col_ok m)
                        (λ c lt. (col_ok_iff m c).1 (columns c lt)) in
                    let end : (m.cols m.num_cols == m.nnz) ≡ true = ground arith in
                    rw (all, end) refl
              ],
            )
    ]
  ]

  pub is_valid_of_IsValid : (m : Mat R) → IsValid m → is_valid m ≡ true
  is_valid_of_IsValid m v =
      (is_valid_mat_iff m).1 (v.fits, inr (λ c lt. (v.steps c lt, v.in_range c lt), v.whole))

  lower_from_iff :
      (col a b : ℕ) (es : Entries R)
      → InRange a b es
      → (lower_from col es ≡ true) ↔ ((i : ℕ) → i < col → at i es ≡ none)
  unfolding lower_from
  lower_from_iff col a b [] h = (λ e i lt. refl, λ all. refl)
  lower_from_iff col a b ((row, x) ∷ es) h =
      let rest = lower_from_iff col (suc row) b es h.2 in
      elim (Bool-cases (ltb row col)) [
        | inl low ↦
            let t : (row == row) ≡ true = ground arith in
            rw low (
              λ e. absurd (ground arith),
              λ all.
                  let here : (if row == row then some x else at row es) ≡ none =
                    all row (ground arith) in
                  let here' = rw t at here in absurd (ground arith),
            )
        | inr high ↦ rw high (
          λ e i lt. let t : (row == i) ≡ false = ground arith in rw t (rest.0 e i lt),
          λ all. rest.1 (λ i lt.
              let t : (row == i) ≡ false = ground arith in
              let here : (if row == i then some x else at i es) ≡ none = all i lt in rw t at here),
        )
      ]

  -- `is_lower` of a valid matrix answers `true` exactly if no column has an entry above the diagonal.
  pub is_lower_iff :
      (m : Mat R)
      → IsValid m
      → (is_lower m ≡ true)
        ↔ ((c : ℕ) → c < m.num_cols → (i : ℕ) → i < c → at i (column m c) ≡ none)
  unfolding is_lower
  is_lower_iff m v =
      let test : ℕ → Bool = λ c. lower_from c (column m c) in
      (
        λ h c lt.
            (lower_from_iff c 0 m.num_rows (column m c) (v.in_range c lt)).0
              (all_below_elim m.num_cols test c h lt),
        λ all.
            all_below_intro m.num_cols test
              (λ c lt. (lower_from_iff c 0 m.num_rows (column m c) (v.in_range c lt)).1 (all c lt)),
      )
