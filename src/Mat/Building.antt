-- ===== src/Mat/Building.antt =====
-- Building a matrix of mat.c column by column: `push_col`, then `push` for its entries.
use sleqp.Base.{
  ℕ, zero, suc, ◌+◌, ◌-◌, ◌≤◌, ◌<◌, ◌≡◌, refl, ap, sym, subst, ◌∙◌, true, false, [], ◌∷◌, ◌++◌,
  arith, ltb, ◌==◌, length, Outcome, ok, ◌>>=◌, Bool-cases, inl, inr,
}
use sleqp.Vec.{Entries}
use sleqp.Vec.Entries.{InRange}
use sleqp.Mat.{Mat, write, slice, column, push, push_col, push_entries, for_cols}
use sleqp.Mat.Columns.{IsValid, slice_congr, slice-snoc, climbs_to, column_congr}

pub write_self {ℓ} : {A : Type ℓ} (f : ℕ → A) (k : ℕ) (x : A) → write f k x k ≡ x
write_self f k x = let e : (k == k) ≡ true = ground arith in rw e

pub write_below {ℓ} : {A : Type ℓ} (f : ℕ → A) (k i : ℕ) (x : A) → i < k → write f k x i ≡ f i
write_below f k i x lt = let e : (i == k) ≡ false = ground arith in rw e

module _ {R : Type 0} where
  -- Every row `offset` further down.
  abbrev pub moved : ℕ → Entries R → Entries R
  moved offset [] = []
  moved offset ((row, x) ∷ es) = (offset + row, x) ∷ moved offset es

  -- The columns below `c` are there, and nothing behind them is counted.
  pub record Built (c : ℕ) (cells : ℕ → Entries R) (m : Mat R) : Type 0 where
    pub start : m.cols 0 ≡ 0
    pub steps : (j : ℕ) → j < c → m.cols j ≤ m.cols (suc j)
    pub last : m.cols c ≡ m.nnz
    pub there : (j : ℕ) → j < c → column m j ≡ cells j

  -- Likewise, with the entries `es` in column `c`.
  pub record Filling (c : ℕ) (cells : ℕ → Entries R) (es : Entries R) (m : Mat R) : Type 0 where
    pub start : m.cols 0 ≡ 0
    pub steps : (j : ℕ) → j < suc c → m.cols j ≤ m.cols (suc j)
    pub last : m.cols (suc c) ≡ m.nnz
    pub there : (j : ℕ) → j < c → column m j ≡ cells j
    pub current : column m c ≡ es

  -- `m'` differs from `m` in its entries only, of which it has `n` more.
  pub record Grown (n : ℕ) (m m' : Mat R) : Type 0 where
    pub same_rows : m'.num_rows ≡ m.num_rows
    pub same_cols : m'.num_cols ≡ m.num_cols
    pub same_max : m'.nnz_max ≡ m.nnz_max
    pub count : m'.nnz ≡ m.nnz + n

  pub Grown-trans :
      (n k : ℕ) (m m' m'' : Mat R) → Grown n m m' → Grown k m' m'' → Grown (n + k) m m''
  Grown-trans n k m m' m'' g h = record {
    same_rows = h.same_rows ∙ g.same_rows;
    same_cols = h.same_cols ∙ g.same_cols;
    same_max = h.same_max ∙ g.same_max;
    count = omega (arith, g.count, h.count);
  }

  pub Built-next :
      (c : ℕ) (cells : ℕ → Entries R) (es : Entries R) (m : Mat R)
      → es ≡ cells c
      → Filling c cells es m
      → Built (suc c) cells m
  Built-next c cells es m e f = record {
    start = f.start;
    steps = f.steps;
    last = f.last;
    there = λ j lt. elim (Bool-cases (ltb j c)) [
      | inl below ↦ f.there j (ground arith)
      | inr here ↦ let q : j ≡ c = ground arith in rw q (f.current ∙ e)
    ];
  }

  pub push_col_fills :
      (c : ℕ) (cells : ℕ → Entries R) (m : Mat R)
      → c < m.num_cols
      → Built c cells m
      → (m' : Mat R) × (push_col m c ≡ ok m') × Filling c cells [] m' × Grown 0 m m'
  unfolding push_col
  push_col_fills c cells m lt b =
      let test : ltb c m.num_cols ≡ true = ground arith in
      let m' : Mat R = record m { cols = write m.cols (suc c) (m.cols c) } in
      let low : (j : ℕ) → j < suc c → m'.cols j ≡ m.cols j =
        λ j l. write_below m.cols (suc c) j (m.cols c) l in
      let top : m'.cols (suc c) ≡ m.cols c = write_self m.cols (suc c) (m.cols c) in
      let gap : m'.cols (suc c) - m'.cols c ≡ 0 = omega (arith, top, low c (omega arith)) in
      (
        m',
        rw test refl,
        record {
          start = low 0 (omega arith) ∙ b.start;
          steps = λ j l. elim (Bool-cases (ltb j c)) [
            | inl below ↦
                omega (arith, low j l, low (suc j) (ground arith), b.steps j (ground arith))
            | inr here ↦
                let q : j ≡ c = ground arith in rw q (omega (arith, top, low c (omega arith)))
          ];
          last = top ∙ b.last;
          there = λ j l.
              column_congr m' m j (low j (omega arith)) (low (suc j) (omega arith)) (λ i p q. refl)
              ∙ b.there j l;
          current = ap (slice m.store (m'.cols c)) gap;
        },
        record { same_rows = refl; same_cols = refl; same_max = refl; count = omega arith },
      )

  pub push_fills :
      (c row : ℕ) (x : R) (cells : ℕ → Entries R) (es : Entries R) (m : Mat R)
      → c < m.num_cols
      → row < m.num_rows
      → m.nnz < m.nnz_max
      → Filling c cells es m
      → (m' : Mat R) × (push m row c x ≡ ok m')
        × Filling c cells (es ++ ((row, x) ∷ [])) m'
        × Grown 1 m m'
  unfolding push
  push_fills c row x cells es m lt in_row room f =
      let test : ltb c m.num_cols ≡ true = ground arith in
      let row_test : ltb row m.num_rows ≡ true = ground arith in
      let room_test : ltb m.nnz m.nnz_max ≡ true = ground arith in
      let m' : Mat R = record m {
        store = write m.store m.nnz (row, x);
        cols = write m.cols (suc c) (suc (m.cols (suc c)));
        nnz = suc m.nnz;
      } in
      let low : (j : ℕ) → j < suc c → m'.cols j ≡ m.cols j =
        λ j l. write_below m.cols (suc c) j (suc (m.cols (suc c))) l in
      let top : m'.cols (suc c) ≡ suc (m.cols (suc c)) =
        write_self m.cols (suc c) (suc (m.cols (suc c))) in
      let kept : (i : ℕ) → i < m.nnz → m'.store i ≡ m.store i =
        λ i l. write_below m.store m.nnz i (row, x) l in
      let before : (j : ℕ) → j ≤ suc c → m.cols j ≤ m.nnz =
        λ j l. omega (arith, climbs_to m.cols (suc c) j (suc c) f.steps l (omega arith), f.last) in
      let n = m.cols (suc c) - m.cols c in
      let step = f.steps c (omega arith) in
      let gap : m'.cols (suc c) - m'.cols c ≡ suc n =
        omega (arith, top, low c (omega arith), step) in
      let here : m.cols c + n ≡ m.nnz = omega (arith, step, f.last) in
      let old : slice m'.store (m.cols c) n ≡ es =
        slice_congr m'.store m.store (m.cols c) n (λ i p q. kept i (omega (arith, here)))
        ∙ f.current in
      (
        m',
        rw (room_test, row_test, test) refl,
        record {
          start = low 0 (omega arith) ∙ f.start;
          steps = λ j l. elim (Bool-cases (ltb j c)) [
            | inl below ↦ omega (arith, low j l, low (suc j) (ground arith), f.steps j l)
            | inr at_c ↦
                let q : j ≡ c = ground arith in rw q (omega (arith, top, low c (omega arith), step))
          ];
          last = top ∙ ap suc f.last;
          there = λ j l.
              column_congr m' m j (low j (omega arith)) (low (suc j) (omega arith)) (λ i p q.
                kept i (omega (arith, q, low (suc j) (omega arith), before (suc j) (omega arith))))
              ∙ f.there j l;
          current =
              rw (gap, low c (omega arith))
                (slice-snoc m'.store (m.cols c) n
                  ∙ rw (old, here, write_self m.store m.nnz (row, x)));
        },
        record { same_rows = refl; same_cols = refl; same_max = refl; count = omega arith },
      )

  pub append_assoc_moved :
      (offset : ℕ) (row : ℕ) (x : R) (es more : Entries R)
      → (es ++ ((offset + row, x) ∷ [])) ++ moved offset more ≡ es ++ moved offset ((row, x) ∷ more)
  append_assoc_moved offset row x [] more = refl
  append_assoc_moved offset row x (e ∷ es) more =
      ap (λ ys. e ∷ ys) (append_assoc_moved offset row x es more)

  append_nothing : (es : Entries R) → es ≡ es ++ []
  append_nothing [] = refl
  append_nothing (e ∷ es) = ap (λ ys. e ∷ ys) (append_nothing es)

  pub push_entries_fills :
      (offset a n c : ℕ) (more : Entries R) (cells : ℕ → Entries R) (es : Entries R) (m : Mat R)
      → c < m.num_cols
      → InRange a n more
      → offset + n ≤ m.num_rows
      → m.nnz + length more ≤ m.nnz_max
      → Filling c cells es m
      → (m' : Mat R) × (push_entries offset c more m ≡ ok m')
        × Filling c cells (es ++ moved offset more) m'
        × Grown (length more) m m'
  unfolding push_entries
  push_entries_fills offset a n c [] cells es m lt h rows room f = (
    m,
    refl,
    subst (λ ys. Filling c cells ys m) (append_nothing es) f,
    record { same_rows = refl; same_cols = refl; same_max = refl; count = omega arith },
  )
  push_entries_fills offset a n c ((row, x) ∷ more) cells es m lt h rows room f =
      let (m1, runs, f1, g1) =
        push_fills c (offset + row) x cells es m lt (omega arith) (omega arith) f in
      let (m2, more_runs, f2, g2) =
        push_entries_fills offset (suc row) n c more cells (es ++ ((offset + row, x) ∷ [])) m1
          (omega (arith, g1.same_cols)) h.2 (omega (arith, g1.same_rows))
          (omega (arith, g1.count, g1.same_max)) f1 in
      (
        m2,
        ap (λ o. o >>= push_entries offset c more) runs ∙ more_runs,
        subst (λ ys. Filling c cells ys m2) (append_assoc_moved offset row x es more) f2,
        subst (λ k. Grown k m m2) (omega arith) (Grown-trans 1 (length more) m m1 m2 g1 g2),
      )

  -- A loop over columns keeps what every round takes one column further.
  pub for_cols_lem :
      (P : ℕ → Mat R → Type 0) (step : ℕ → Mat R → Outcome (Mat R)) (rounds from n : ℕ) (m : Mat R)
      → ((c : ℕ) (s : Mat R) → c < n → P c s → (t : Mat R) × (step c s ≡ ok t) × P (suc c) t)
      → from + rounds ≡ n
      → P from m
      → (m' : Mat R) × (for_cols rounds from step m ≡ ok m') × P n m'
  unfolding for_cols
  for_cols_lem P step zero from n m go e p = (m, refl, subst (λ k. P k m) (omega arith) p)
  for_cols_lem P step (suc rounds) from n m go e p =
      let (s, runs, q) = go from m (omega arith) p in
      let (m', rest, r) = for_cols_lem P step rounds (suc from) n s go (omega arith) q in
      (m', ap (λ o. o >>= for_cols rounds (suc from) step) runs ∙ rest, r)

  -- The first column of an emptied matrix can be begun.
  pub Built-empty : (cells : ℕ → Entries R) (m : Mat R) → m.cols 0 ≡ 0 → m.nnz ≡ 0 → Built 0 cells m
  Built-empty cells m e e' = record {
    start = e;
    steps = λ j lt. absurd (omega arith);
    last = e ∙ sym e';
    there = λ j lt. absurd (omega arith);
  }

  -- A matrix whose columns are all there is well formed.
  pub Built-IsValid :
      (n : ℕ) (cells : ℕ → Entries R) (m : Mat R)
      → Built n cells m
      → m.num_cols ≡ n
      → m.nnz ≤ m.nnz_max
      → ((j : ℕ) → j < n → InRange 0 m.num_rows (cells j))
      → IsValid m
  Built-IsValid n cells m b e fits h = record {
    start = b.start;
    steps = λ j lt. b.steps j (omega arith);
    in_range =
        λ j lt. subst (InRange 0 m.num_rows) (sym (b.there j (omega arith))) (h j (omega arith));
    whole = ap m.cols e ∙ b.last;
    fits = fits;
  }
