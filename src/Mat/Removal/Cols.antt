-- ===== src/Mat/Removal/Cols.antt =====
-- The loop over the columns that are kept, in mat.c.
use sleqp.Base.{
  ℕ, zero, suc, ◌+◌, ◌-◌, ◌≤◌, ◌<◌, ◌≡◌, refl, ap, sym, subst, ◌∙◌, true, false, List, [], ◌∷◌,
  arith, ltb, leb, ◌==◌, if◌then◌else◌, length, Outcome, ok, ◌>>=◌, Bool-cases, inl, inr,
}
use sleqp.Vec.{Entries}
use sleqp.Vec.Entries.{InRange}
use sleqp.Vec.Removal.{IsIncreasing, contains, count_lower, count_lower_below, length-le_gap}
use sleqp.Mat.{Mat, column}
use sleqp.Mat.Building.{Built, Filling, Grown}
use sleqp.Mat.Removal.{each_kept}

module _ {R : Type 0} (spec : ℕ → Entries R) (limit : ℕ → ℕ) (n : ℕ) where
  -- The body puts column `col` of `spec` at column `to`.
  abbrev pub Fills : (ℕ → ℕ → Mat R → Outcome (Mat R)) → ℕ → Type 0
  Fills step rows =
      (col to : ℕ) (t : Mat R)
      → col < n
      → to < t.num_cols
      → t.num_rows ≡ rows
      → t.nnz + length (spec col) ≤ t.nnz_max
      → Built to (column t) t
      → (t' : Mat R) × (step col to t ≡ ok t')
        × Filling to (column t) (spec col) t'
        × Grown (length (spec col)) t t'

  -- `limit` bounds the number of entries in front of a column.
  pub record Bounded (rows : ℕ) : Type 0 where
    pub grows : (c : ℕ) → c < n → limit c + length (spec c) ≤ limit (suc c)
    pub climbs : (c : ℕ) → c ≤ n → limit c ≤ limit n
    pub in_rows : (c : ℕ) → c < n → InRange 0 rows (spec c)

  -- Where the loop stands before column `col`.
  pub record Standing (rows col offset : ℕ) (rs : List ℕ) (m : Mat R) : Type 0 where
    pub removing : IsIncreasing col n rs
    pub behind : offset ≤ col
    pub width : m.num_cols + offset + length rs ≡ n
    pub height : m.num_rows ≡ rows
    pub built : Built (col - offset) (column m) m
    pub count : m.nnz ≤ limit col
    pub room : limit n ≤ m.nnz_max
    pub in_rows : (j : ℕ) → j < col - offset → InRange 0 rows (column m j)

  -- What the loop leaves behind.
  pub record Kept (rows col offset : ℕ) (rs : List ℕ) (m out : Mat R) : Type 0 where
    pub width : out.num_cols ≡ m.num_cols
    pub height : out.num_rows ≡ rows
    pub built : Built out.num_cols (column out) out
    pub fits : out.nnz ≤ out.nnz_max
    pub in_rows : (j : ℕ) → j < out.num_cols → InRange 0 rows (column out j)
    pub old : (j : ℕ) → j < col - offset → column out j ≡ column m j
    pub new :
        (c : ℕ)
        → col ≤ c
        → c < n
        → contains rs c ≡ false
        → column out (c - (offset + count_lower rs c)) ≡ spec c

  Kept-stop :
      (rows col offset : ℕ) (rs : List ℕ) (m : Mat R)
      → col ≡ n
      → Standing rows col offset rs m
      → Kept rows col offset rs m m
  Kept-stop rows col offset [] m e s =
      let wide : m.num_cols ≡ col - offset = omega (arith, s.width, s.behind) in
      record {
        width = refl;
        height = s.height;
        built = subst (λ k. Built k (column m) m) (sym wide) s.built;
        fits = let q : limit col ≡ limit n = ap limit e in omega (arith, s.count, s.room);
        in_rows = λ j lt. s.in_rows j (omega arith);
        old = λ j lt. refl;
        new = λ c le lt. absurd (omega arith);
      }
  Kept-stop rows col offset (r ∷ rs) m e s = absurd (omega (arith, s.removing.0, s.removing.1))

  -- A column that is removed.
  Kept-pass :
      (rows col offset : ℕ) (rs : List ℕ) (m out : Mat R)
      → Kept rows (suc col) (suc offset) rs m out
      → Kept rows col offset (col ∷ rs) m out
  Kept-pass rows col offset rs m out k = record {
    width = k.width;
    height = k.height;
    built = k.built;
    fits = k.fits;
    in_rows = k.in_rows;
    old = λ j lt. k.old j (omega arith);
    new = λ c le lt other. elim (Bool-cases (col == c)) [
      | inl here ↦ absurd (ground arith)
      | inr behind ↦
          let lower : ltb col c ≡ true = ground arith in
          let rest : contains rs c ≡ false = ground arith in
          let place : c - (suc offset + count_lower rs c)
              ≡ c - (offset + ((if ltb col c then 1 else 0) + count_lower rs c)) =
            rw lower (omega arith) in
          ap (column out) (sym place) ∙ k.new c (ground arith) lt rest
    ];
  }

  -- A column that is kept.
  Kept-take :
      (rows col offset : ℕ) (rs : List ℕ) (m t out : Mat R)
      → IsIncreasing (suc col) n rs
      → offset ≤ col
      → Filling (col - offset) (column m) (spec col) t
      → t.num_cols ≡ m.num_cols
      → Kept rows (suc col) offset rs t out
      → Kept rows col offset rs m out
  Kept-take rows col offset rs m t out h le f e k = record {
    width = k.width ∙ e;
    height = k.height;
    built = k.built;
    fits = k.fits;
    in_rows = k.in_rows;
    old = λ j lt. k.old j (omega arith) ∙ f.there j lt;
    new = λ c ge lt other. elim (Bool-cases (col == c)) [
      | inl here ↦
          let q : c ≡ col = ground arith in
          let none_lower = count_lower_below (suc col) n rs c h (omega arith) in
          let place : c - (offset + count_lower rs c) ≡ col - offset = omega (arith, none_lower) in
          ap (column out) place ∙ k.old (col - offset) (omega arith) ∙ f.current ∙ ap spec (sym q)
      | inr behind ↦ k.new c (ground arith) lt other
    ];
  }

  Standing-pass :
      (rows col offset r : ℕ) (rs : List ℕ) (m : Mat R)
      → Bounded rows
      → r ≡ col
      → Standing rows col offset (r ∷ rs) m
      → Standing rows (suc col) (suc offset) rs m
  Standing-pass rows col offset r rs m b e s = record {
    removing = subst (λ k. IsIncreasing (suc k) n rs) e s.removing.2;
    behind = omega (arith, s.behind);
    width = omega (arith, s.width);
    height = s.height;
    built = subst (λ k. Built k (column m) m) (omega arith) s.built;
    count = omega (arith, s.count, b.grows col (omega (arith, s.removing.1)));
    room = s.room;
    in_rows = λ j lt. s.in_rows j (omega arith);
  }

  Standing-take :
      (rows col offset : ℕ) (rs : List ℕ) (m t : Mat R)
      → Bounded rows
      → col < n
      → IsIncreasing (suc col) n rs
      → Standing rows col offset rs m
      → Filling (col - offset) (column m) (spec col) t
      → Grown (length (spec col)) m t
      → Standing rows (suc col) offset rs t
  Standing-take rows col offset rs m t b lt h s f g =
      let next : suc (col - offset) ≡ suc col - offset = omega (arith, s.behind) in
      record {
        removing = h;
        behind = omega (arith, s.behind);
        width = omega (arith, s.width, g.same_cols);
        height = g.same_rows ∙ s.height;
        built =
            subst (λ k. Built k (column t) t) next
              (record { start = f.start; steps = f.steps; last = f.last; there = λ j l. refl });
        count = omega (arith, s.count, g.count, b.grows col lt);
        room = omega (arith, s.room, g.same_max);
        in_rows = λ j l. elim (Bool-cases (ltb j (col - offset))) [
          | inl below ↦
              subst (InRange 0 rows) (sym (f.there j (ground arith))) (s.in_rows j (ground arith))
          | inr here ↦
              let q : j ≡ col - offset = ground (arith, s.behind) in
              subst (InRange 0 rows) (sym (ap (column t) q ∙ f.current)) (b.in_rows col lt)
        ];
      }

  each_pass :
      (rounds col offset r : ℕ) (rs : List ℕ) (step : ℕ → ℕ → Mat R → Outcome (Mat R)) (m : Mat R)
      → r ≤ col
      → each_kept (suc rounds) col offset (r ∷ rs) step m
        ≡ each_kept rounds (suc col) (suc offset) rs step m
  unfolding each_kept
  each_pass rounds col offset r rs step m le =
      let t : leb r col ≡ true = ground arith in rw (t, each_kept)

  each_take :
      (rounds col offset : ℕ) (rs : List ℕ) (step : ℕ → ℕ → Mat R → Outcome (Mat R)) (m : Mat R)
      → IsIncreasing (suc col) n rs
      → each_kept (suc rounds) col offset rs step m
        ≡ (step col (col - offset) m >>= each_kept rounds (suc col) offset rs step)
  unfolding each_kept
  each_take rounds col offset [] step m h = refl
  each_take rounds col offset (r ∷ rs) step m h =
      let t : leb r col ≡ false = ground arith in rw (t, each_kept)

  Kept-round :
      (rows rounds col offset : ℕ) (rs : List ℕ) (step : ℕ → ℕ → Mat R → Outcome (Mat R))
      (m : Mat R)
      → Fills step rows
      → Bounded rows
      → col < n
      → IsIncreasing (suc col) n rs
      → Standing rows col offset rs m
      → ((t : Mat R)
          → Standing rows (suc col) offset rs t
          → (out : Mat R) × (each_kept rounds (suc col) offset rs step t ≡ ok out)
            × Kept rows (suc col) offset rs t out)
      → (out : Mat R) × (each_kept (suc rounds) col offset rs step m ≡ ok out)
        × Kept rows col offset rs m out
  Kept-round rows rounds col offset rs step m fills b lt h s go =
      let more = b.grows col lt in
      let up = b.climbs (suc col) lt in
      let gap = length-le_gap (suc col) n rs h in
      let (t, runs, f, g) =
        fills col (col - offset) m lt (omega (arith, s.width, s.behind)) s.height
          (omega (arith, s.count, s.room)) s.built in
      let (out, rest, k) = go t (Standing-take rows col offset rs m t b lt h s f g) in
      (
        out,
        each_take rounds col offset rs step m h
            ∙ ap (λ o. o >>= each_kept rounds (suc col) offset rs step) runs
            ∙ rest,
        Kept-take rows col offset rs m t out h s.behind f g.same_cols k,
      )

  pub each_kept_lem :
      (rows rounds col offset : ℕ) (rs : List ℕ) (step : ℕ → ℕ → Mat R → Outcome (Mat R))
      (m : Mat R)
      → Fills step rows
      → Bounded rows
      → col + rounds ≡ n
      → Standing rows col offset rs m
      → (out : Mat R) × (each_kept rounds col offset rs step m ≡ ok out)
        × Kept rows col offset rs m out
  unfolding each_kept
  each_kept_lem rows zero col offset rs step m fills b e s =
      (m, refl, Kept-stop rows col offset rs m (omega arith) s)
  each_kept_lem rows (suc rounds) col offset [] step m fills b e s =
      Kept-round rows rounds col offset [] step m fills b (omega arith) (omega arith) s
        (λ t s'. each_kept_lem rows rounds (suc col) offset [] step t fills b (omega arith) s')
  each_kept_lem rows (suc rounds) col offset (r ∷ rs) step m fills b e s =
      elim (Bool-cases (leb r col)) [
        | inl pass ↦
            let q : r ≡ col = ground (arith, s.removing.0) in
            let (out, rest, k) =
              each_kept_lem rows rounds (suc col) (suc offset) rs step m fills b (omega arith)
                (Standing-pass rows col offset r rs m b q s) in
            (
              out,
              each_pass rounds col offset r rs step m (omega arith) ∙ rest,
              subst (λ k. Kept rows col offset (k ∷ rs) m out) (sym q)
                  (Kept-pass rows col offset rs m out k),
            )
        | inr take ↦
            let h : IsIncreasing (suc col) n (r ∷ rs) =
              (ground arith, s.removing.1, s.removing.2) in
            Kept-round rows rounds col offset (r ∷ rs) step m fills b (omega arith) h s (λ t s'.
              each_kept_lem rows rounds (suc col) offset (r ∷ rs) step t fills b (omega arith) s')
      ]
