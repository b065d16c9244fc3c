-- ===== src/Mat/Products/RoundTrip.antt =====
-- `push_vec` of mat.c, and reading a column back with `col`.
use sleqp.Base.{
  ℕ, suc, ◌+◌, ◌-◌, ◌≤◌, ◌<◌, ◌≡◌, refl, ap, ap₂, sym, subst, ◌∙◌, true, [], ◌∷◌, arith, ltb, leb,
  ◌==◌, length, ok, Bool-cases, inl, inr,
}
use sleqp.Vec as V
use sleqp.Vec.{Entries, Vec, at}
use sleqp.Vec.Entries as E
use sleqp.Vec.Entries.{InRange}
use sleqp.Vec.Shapes.{at-copy}
use sleqp.Mat.{Mat, column, slice, write, write_entries, push_vec}
use sleqp.Mat.Columns.{column_congr, climbs_to, length-column}
use sleqp.Mat.Building.{Filling, Grown, write_self, write_below}
use sleqp.Mat.Products.{read_col}

module _ {R : Type 0} where
  write_entries_below :
      (es : Entries R) (k i : ℕ) (store : ℕ → ℕ × R) → i < k → write_entries es k store i ≡ store i
  unfolding write_entries
  write_entries_below [] k i store lt = refl
  write_entries_below (e ∷ es) k i store lt =
      write_entries_below es (suc k) i (write store k e) (omega arith) ∙ write_below store k i e lt

  slice-write_entries :
      (es : Entries R) (k : ℕ) (store : ℕ → ℕ × R)
      → slice (write_entries es k store) k (length es) ≡ es
  unfolding write_entries
  slice-write_entries [] k store = refl
  slice-write_entries (e ∷ es) k store =
      ap₂ ◌∷◌
        (write_entries_below es (suc k) k (write store k e) (omega arith) ∙ write_self store k e)
        (slice-write_entries es (suc k) (write store k e))

  -- `push_vec` into a column that was just begun.
  pub push_vec_fills :
      (c : ℕ) (vec : Vec R) (cells : ℕ → Entries R) (m : Mat R)
      → c < m.num_cols
      → vec.dim ≡ m.num_rows
      → m.nnz + length vec.entries ≤ m.nnz_max
      → Filling c cells [] m
      → (m' : Mat R) × (push_vec m c vec ≡ ok m')
        × Filling c cells vec.entries m'
        × Grown (length vec.entries) m m'
  unfolding push_vec
  push_vec_fills c vec cells m lt e room f =
      let es = vec.entries in
      let n = length es in
      let step = f.steps c (omega arith) in
      let gap : m.cols (suc c) - m.cols c ≡ 0 = sym (length-column m c) ∙ ap length f.current in
      let empty : (m.cols c == m.cols (suc c)) ≡ true = ground arith in
      let test : ltb c m.num_cols ≡ true = ground arith in
      let dim_test : (vec.dim == m.num_rows) ≡ true = ground arith in
      let room_test : leb (n + m.nnz) m.nnz_max ≡ true = ground arith in
      let m' : Mat R = record m {
        store = write_entries es m.nnz m.store;
        cols = write m.cols (suc c) (m.cols (suc c) + n);
        nnz = m.nnz + n;
      } in
      let low : (j : ℕ) → j < suc c → m'.cols j ≡ m.cols j =
        λ j l. write_below m.cols (suc c) j (m.cols (suc c) + n) l in
      let top : m'.cols (suc c) ≡ m.cols (suc c) + n =
        write_self m.cols (suc c) (m.cols (suc c) + n) in
      let before : (j : ℕ) → j ≤ suc c → m.cols j ≤ m.nnz =
        λ j l. omega (arith, climbs_to m.cols (suc c) j (suc c) f.steps l (omega arith), f.last) in
      let width : m'.cols (suc c) - m'.cols c ≡ n = omega (arith, top, low c (omega arith)) in
      let place : m'.cols c ≡ m.nnz = omega (arith, low c (omega arith), f.last) in
      (
        m',
        rw (test, empty, dim_test, room_test) refl,
        record {
          start = low 0 (omega arith) ∙ f.start;
          steps = λ j l. elim (Bool-cases (ltb j c)) [
            | inl below ↦ omega (arith, low j l, low (suc j) (ground arith), f.steps j l)
            | inr here ↦
                let q : j ≡ c = ground arith in rw q (omega (arith, top, low c (omega arith), step))
          ];
          last = omega (arith, top, f.last);
          there = λ j l.
              column_congr m' m j (low j (omega arith)) (low (suc j) (omega arith)) (λ i p q.
                write_entries_below es m.nnz i m.store
                  (omega (arith, q, low (suc j) (omega arith), before (suc j) (omega arith))))
              ∙ f.there j l;
          current = rw (width, place) (slice-write_entries es m.nnz m.store);
        },
        record { same_rows = refl; same_cols = refl; same_max = refl; count = refl },
      )

  -- `col` is `copy` of vec.c from the column.
  read_col-copy :
      (m : Mat R) (c : ℕ) (vec : Vec R)
      → c < m.num_cols
      → read_col m c vec
        ≡ V.copy
            (record { entries = column m c; dim = m.num_rows; nnz_max = m.cols (suc c) - m.cols c })
            vec
  unfolding read_col V.copy V.reserve V.clear V.push_all
  read_col-copy m c vec lt =
      let test : ltb c m.num_cols ≡ true = ground arith in rw (test, length-column m c)

  -- `col` of a column in range into a vector of the height of the matrix returns a valid vector, with
  -- the entries of the column.
  pub read_col_lem :
      (m : Mat R) (c : ℕ) (vec : Vec R)
      → c < m.num_cols
      → InRange 0 m.num_rows (column m c)
      → m.num_rows ≡ vec.dim
      → (out : Vec R) × (read_col m c vec ≡ ok out)
        × E.IsValid out
        × (out.dim ≡ m.num_rows)
        × ((i : ℕ) → at i out.entries ≡ at i (column m c))
  read_col_lem m c vec lt h e =
      let source : Vec R = record {
        entries = column m c;
        dim = m.num_rows;
        nnz_max = m.cols (suc c) - m.cols c;
      } in
      let fine : E.IsValid source = record {
        in_range = h;
        fits = omega (arith, length-column m c);
      } in
      let (out, runs, w, dim, same) = at-copy source vec fine e in
      (out, read_col-copy m c vec lt ∙ runs, w, dim, same)

  -- What `push_vec` puts into a column that was just begun, `col` reads back, and the columns in
  -- front of it are kept.
  pub read_col-push_vec :
      (m : Mat R) (c : ℕ) (vec target : Vec R) (cells : ℕ → Entries R)
      → c < m.num_cols
      → E.IsValid vec
      → vec.dim ≡ m.num_rows
      → target.dim ≡ m.num_rows
      → m.nnz + length vec.entries ≤ m.nnz_max
      → Filling c cells [] m
      → (m' : Mat R) × (out : Vec R) × (push_vec m c vec ≡ ok m')
        × (read_col m' c target ≡ ok out)
        × ((i : ℕ) → at i out.entries ≡ at i vec.entries)
        × ((j : ℕ) → j < c → column m' j ≡ column m j)
  read_col-push_vec m c vec target cells lt w e e' room f =
      let (m', runs, f', g) = push_vec_fills c vec cells m lt e room f in
      let h : InRange 0 m'.num_rows (column m' c) =
        subst (InRange 0 m'.num_rows) (sym f'.current)
          (subst (λ n. InRange 0 n vec.entries) (e ∙ sym g.same_rows) w.in_range) in
      let (out, reads, w', dim, same) =
        read_col_lem m' c target (omega (arith, g.same_cols)) h (g.same_rows ∙ sym e') in
      (
        m',
        out,
        runs,
        reads,
        λ i. same i ∙ ap (at i) f'.current,
        λ j l. f'.there j l ∙ sym (f.there j l),
      )
