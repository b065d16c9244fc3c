-- ===== src/Mat/Columns.antt =====
-- The columns of a matrix of mat.c as lists of entries, and when a matrix is well formed.
use sleqp.Base.{
  ℕ, zero, suc, ◌+◌, ◌-◌, ◌≤◌, ◌<◌, ◌≡◌, refl, ap, ap₂, ◌∙◌, [], ◌∷◌, ◌++◌, arith, length,
}
use sleqp.Vec.Entries.{InRange}
use sleqp.Mat.{Mat, slice, column}

-- `cols` increases over a stretch where it does so step by step.
pub climbs :
    (cols : ℕ → ℕ) (n c rounds : ℕ)
    → ((j : ℕ) → j < n → cols j ≤ cols (suc j))
    → c + rounds ≤ n
    → cols c ≤ cols (c + rounds)
climbs cols n c zero h le = let e : cols c ≡ cols (c + 0) = ap cols (omega arith) in omega arith
climbs cols n c (suc rounds) h le =
    let e : cols (suc c + rounds) ≡ cols (c + suc rounds) = ap cols (omega arith) in
    omega (arith, h c (omega arith), climbs cols n (suc c) rounds h (omega arith))

pub climbs_to :
    (cols : ℕ → ℕ) (n c d : ℕ)
    → ((j : ℕ) → j < n → cols j ≤ cols (suc j))
    → c ≤ d
    → d ≤ n
    → cols c ≤ cols d
climbs_to cols n c d h le le' =
    let e : cols (c + (d - c)) ≡ cols d = ap cols (omega arith) in
    omega (arith, climbs cols n c (d - c) h (omega arith))

module _ {R : Type 0} where
  pub slice_congr :
      (f g : ℕ → ℕ × R) (k n : ℕ)
      → ((i : ℕ) → k ≤ i → i < k + n → f i ≡ g i)
      → slice f k n ≡ slice g k n
  slice_congr f g k zero h = refl
  slice_congr f g k (suc n) h =
      ap₂ ◌∷◌ (h k (omega arith) (omega arith))
        (slice_congr f g (suc k) n (λ i le lt. h i (omega arith) (omega arith)))

  pub slice-snoc : (f : ℕ → ℕ × R) (k n : ℕ) → slice f k (suc n) ≡ slice f k n ++ (f (k + n) ∷ [])
  slice-snoc f k zero = let e : k + 0 ≡ k = omega arith in rw e
  slice-snoc f k (suc n) =
      let e : suc k + n ≡ k + suc n = omega arith in
      ap (λ es. f k ∷ es) (slice-snoc f (suc k) n ∙ ap (λ i. slice f (suc k) n ++ (f i ∷ [])) e)

  pub length-slice : (f : ℕ → ℕ × R) (k n : ℕ) → length (slice f k n) ≡ n
  length-slice f k zero = refl
  length-slice f k (suc n) = ap suc (length-slice f (suc k) n)

  -- What the code keeps of a finished matrix: the columns lie one behind the other, fill the first
  -- `nnz` positions, and the rows of each increase strictly and exist.
  pub record IsValid (m : Mat R) : Type 0 where
    pub start : m.cols 0 ≡ 0
    pub steps : (c : ℕ) → c < m.num_cols → m.cols c ≤ m.cols (suc c)
    pub in_range : (c : ℕ) → c < m.num_cols → InRange 0 m.num_rows (column m c)
    pub whole : m.cols m.num_cols ≡ m.nnz
    pub fits : m.nnz ≤ m.nnz_max

  -- Two matrices whose columns are bounded alike and hold the same entries have the same column.
  pub column_congr :
      (m m' : Mat R) (c : ℕ)
      → m.cols c ≡ m'.cols c
      → m.cols (suc c) ≡ m'.cols (suc c)
      → ((i : ℕ) → m.cols c ≤ i → i < m.cols (suc c) → m.store i ≡ m'.store i)
      → column m c ≡ column m' c
  column_congr m m' c e e' h =
      rw (← e, ← e')
        (slice_congr m.store m'.store (m.cols c) (m.cols (suc c) - m.cols c)
          (λ i le lt. h i le (omega arith)))

  pub length-column : (m : Mat R) (c : ℕ) → length (column m c) ≡ m.cols (suc c) - m.cols c
  length-column m c = length-slice m.store (m.cols c) (m.cols (suc c) - m.cols c)
